-- ===== src/Kernel/Resource/Table.antt =====
-- The map of resources of kernel/resource.c, and rsrc_bind.
use openblt.Prelude.{
  ℕ, ◌<◌, ◌==◌, ◌≡◌, ◌≢◌, true, false, some, List, [], ◌∷◌, arith, has, Distinct, ==_refl, ==_ne,
  Bool-cases, inl, inr, ◌∙◌,
}
use openblt.Kernel.FreeList.{Chain}
use openblt.Kernel.State.{Ptr, null, RsrcType, rsrc_none, type_code, Kernel}
use openblt.Kernel.Frame.{SameTable}
use openblt.Kernel.Resource.{rsrc_find, rsrc_bind, map_entry, enlist}

pub record IsTable (k : Kernel) (free : List ℕ) : Type 0 where
  pub chain : Chain k.rmap_next k.rfree free
  pub distinct : Distinct free
  pub vacant : (i : ℕ) → has i free ≡ true → (i < k.rmax) × (k.rmap_resource i ≡ null)
  pub complete : (i : ℕ) → i < k.rmax → i ≢ 0 → k.rmap_resource i ≡ null → has i free ≡ true
  pub reserved : k.rmap_resource 0 ≡ null
  pub null_type : (k.rsrc null).type ≡ rsrc_none
  pub bound :
      (i : ℕ)
      → i < k.rmax
      → k.rmap_resource i ≢ null
      → ((k.rsrc (k.rmap_resource i)).id ≡ i) × ((k.rsrc (k.rmap_resource i)).type ≢ rsrc_none)

pub IsTable-frame :
    (k k' : Kernel) (free : List ℕ) → SameTable k k' → IsTable k free → IsTable k' free
IsTable-frame k k' free s t = record {
  chain = rw (s.nexts, s.first) t.chain;
  distinct = t.distinct;
  vacant = λ i h. rw (s.size, s.resources) (t.vacant i h);
  complete = λ i lt ne e. t.complete i (rw (s.size) at lt) ne (rw (s.resources) at e);
  reserved = rw s.resources t.reserved;
  null_type = s.types null ∙ t.null_type;
  bound = λ i lt ne.
      let b = t.bound i (rw (s.size) at lt) (λ e. ne (rw s.resources e)) in
      rw (s.resources, s.ids (k.rmap_resource i), s.types (k.rmap_resource i)) b;
}

pub find-frame :
    (k k' : Kernel)
    → SameTable k k'
    → (type : RsrcType) (id : ℕ) → rsrc_find type id k' ≡ rsrc_find type id k
unfolding rsrc_find
find-frame k k' s type id = rw (s.size, s.resources, s.types (k.rmap_resource id))

type_code-injective : (a b : RsrcType) → type_code a ≡ type_code b → a ≡ b
type_code-injective a b e = ground arith

find_parts :
    (k : Kernel) (type : RsrcType) (id : ℕ) (p : Ptr)
    → rsrc_find type id k ≡ some p
    → (id < k.rmax) × (k.rmap_resource id ≡ p) × (type_code (k.rsrc p).type ≡ type_code type)
unfolding rsrc_find
find_parts k type id p e = ground arith

-- What a found resource satisfies: it is in the map under its id, and of the type asked for.
pub record Found (k : Kernel) (type : RsrcType) (id : ℕ) (p : Ptr) : Type 0 where
  pub in_range : id < k.rmax
  pub mapped : k.rmap_resource id ≡ p
  pub real : p ≢ null
  pub typed : (k.rsrc p).type ≡ type
  pub named : (k.rsrc p).id ≡ id

pub find-Found :
    (k : Kernel) (free : List ℕ) (type : RsrcType) (id : ℕ) (p : Ptr)
    → IsTable k free
    → type ≢ rsrc_none
    → rsrc_find type id k ≡ some p
    → Found k type id p
find-Found k free type id p t some_type e =
    let f = find_parts k type id p e in
    let typed = type_code-injective (k.rsrc p).type type f.2 in
    let real : p ≢ null = λ z. some_type (ground (arith, z, typed, t.null_type)) in
    let b = t.bound id f.0 (λ z. real (ground (arith, z, f.1))) in
    record {
      in_range = f.0;
      mapped = f.1;
      real = real;
      typed = typed;
      named = ground (arith, b.0, f.1);
    }

-- And the other way round.
pub Found-find :
    (k : Kernel) (type : RsrcType) (id : ℕ) (p : Ptr)
    → Found k type id p
    → rsrc_find type id k ≡ some p
unfolding rsrc_find
Found-find k type id p f =
    rw (f.mapped, f.typed) (ground (arith, f.in_range, ==_refl (type_code type)))

-- What binding `p` promises: the first free id is taken, `p` is found under it and under no other id,
-- and no other id changes.
pub record Bound (k : Kernel) (p : Ptr) (type : RsrcType) (i : ℕ) (free : List ℕ) (k' : Kernel)
    : Type 0 where
  pub table : IsTable k' free
  pub found : rsrc_find type i k' ≡ some p
  pub others :
      (ty : RsrcType) (j : ℕ) → (j == i) ≡ false → j < k.rmax → rsrc_find ty j k' ≡ rsrc_find ty j k
  pub empty : (k'.rsrc p).queue ≡ []

enlist-SameTable : (p owner : Ptr) (k : Kernel) → SameTable k (enlist p owner k)
unfolding enlist
enlist-SameTable p owner k = record {
  resources = ground arith;
  nexts = ground arith;
  size = ground arith;
  first = ground arith;
  types = λ q. ground arith;
  ids = λ q. ground arith;
}

enlist-queue : (p owner q : Ptr) (k : Kernel) → ((enlist p owner k).rsrc q).queue ≡ (k.rsrc q).queue
unfolding enlist
enlist-queue p owner q k = ground arith

module _ (k : Kernel) (p : Ptr) (type : RsrcType) (owner : Ptr) (free : List ℕ)
    (t : IsTable k (k.rfree ∷ free)) (real : p ≢ null) (typed : type ≢ rsrc_none)
    (fresh : (j : ℕ) → j < k.rmax → k.rmap_resource j ≢ p) where
  abbrev i : ℕ
  i = k.rfree

  abbrev mapped : Kernel
  mapped = map_entry p type owner k

  mapped-bound :
      (j : ℕ)
      → j < mapped.rmax
      → mapped.rmap_resource j ≢ null
      → ((mapped.rsrc (mapped.rmap_resource j)).id ≡ j)
        × ((mapped.rsrc (mapped.rmap_resource j)).type ≢ rsrc_none)
  mapped-bound j lt ne = elim (Bool-cases (j == i)) [
    | inl m ↦ rw (m, ==_refl p) (ground (arith, m), typed)
    | inr m ↦ rw (m, ==_ne (k.rmap_resource j) p (fresh j lt)) (t.bound j lt (rw m at ne))
  ]

  mapped-IsTable : IsTable mapped free
  mapped-IsTable = record {
    chain = t.chain.2;
    distinct = t.distinct.1;
    vacant = λ j h. ground (arith, t.vacant j, h, t.distinct);
    complete = λ j lt ne e. ground (arith, t.complete j lt ne, e, real);
    reserved = ground (arith, t.reserved, t.chain);
    null_type = ground (arith, t.null_type, real);
    bound = mapped-bound;
  }

  mapped-find : rsrc_find type i mapped ≡ some p
  unfolding rsrc_find
  mapped-find = ground (arith, t.vacant i, ==_refl i, ==_refl p, ==_refl (type_code type))

  mapped-others :
      (ty : RsrcType) (j : ℕ)
      → (j == i) ≡ false
      → j < k.rmax
      → rsrc_find ty j mapped ≡ rsrc_find ty j k
  unfolding rsrc_find
  mapped-others ty j n lt = rw (n, ==_ne (k.rmap_resource j) p (fresh j lt))

  -- In a well formed table with a free id, rsrc_bind of a resource that is in no entry, with a type
  -- other than RSRC_NONE, takes the first free id, under which the resource is found from then on
  -- with an empty queue; every other id finds what it found, and the table stays well formed.
  pub rsrc_bind-Bound :
      (k' : Kernel) × (rsrc_bind p type owner k ≡ some k') × Bound k p type k.rfree free k'
  unfolding rsrc_bind
  rsrc_bind-Bound =
      let same = enlist-SameTable p owner mapped in
      (
        enlist p owner mapped,
        ground (arith, t.chain),
        record {
          table = IsTable-frame mapped _ free same mapped-IsTable;
          found = find-frame mapped _ same type i ∙ mapped-find;
          others = λ ty j n lt. find-frame mapped _ same ty j ∙ mapped-others ty j n lt;
          empty = enlist-queue p owner p mapped ∙ ground (arith, ==_refl p);
        },
      )
