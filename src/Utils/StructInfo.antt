-- ===== src/Utils/StructInfo.antt =====
-- compute_struct_info of src/utils/utils.hpp: the offsets of the fields of a structure. `m` is the
-- modulus of size_t.
use the_pipe.Base.{
  ℕ, ◌+◌, ◌*◌, ◌/◌, ◌%◌, ◌≤◌, ◌<◌, ◌≡◌, max, List, [], ◌∷◌, arith, ◌==◌, if◌then◌else◌, ==_iff,
  Bool-cases, All, refl, true, false, inl, inr,
}
use native.Mathlib.Nat.{mod-eq_of_lt, mod-lt, div-add-mod', mul-mod_left}

pub record StructFieldInfo : Type 0 where
  pub size : ℕ
  pub alignment : ℕ

pub record StructInfo : Type 0 where
  pub total_size : ℕ
  pub offsets : List ℕ

-- The next multiple of the alignment.
align_up : ℕ → ℕ → ℕ → ℕ
align_up m offset alignment =
    ((offset / alignment + (if offset % alignment == 0 then 0 else 1)) * alignment) % m

-- The variables of the loop.
record Layout : Type 0 where
  current_offset : ℕ
  max_alignment : ℕ
  offsets : List ℕ

-- The loop over the fields. The offsets are those that it writes from the first field on.
lay_out : ℕ → List StructFieldInfo → ℕ → ℕ → Layout
unfolding align_up
lay_out m [] current_offset max_alignment = record {
  current_offset = current_offset;
  max_alignment = max_alignment;
  offsets = [];
}
lay_out m (f ∷ fields) current_offset max_alignment =
    let offset = align_up m current_offset f.alignment in
    let rest = lay_out m fields ((offset + f.size) % m) (max max_alignment f.alignment) in
    record rest { offsets = offset ∷ rest.offsets }

unfoldable pub compute_struct_info : ℕ → List StructFieldInfo → StructInfo
unfolding lay_out
compute_struct_info m fields =
    let l = lay_out m fields 0 1 in
    record { total_size = align_up m l.current_offset l.max_alignment; offsets = l.offsets }

-- `r` is the first multiple of `a` from `x` on.
pub record Aligned (x a r : ℕ) : Type 0 where
  pub multiple : r % a ≡ 0
  pub above : x ≤ r
  pub near : r < x + a

align_up-Aligned : (m x a : ℕ) → 0 < a → x + a ≤ m → Aligned x a (align_up m x a)
unfolding align_up
align_up-Aligned m x a h k = elim (Bool-cases (x % a == 0)) [
  | inl e ↦
      rw (e, exact e, mod-eq_of_lt {n = x} {m = m} (omega arith))
        (record { multiple = (==_iff (x % a) 0).0 e; above = omega arith; near = omega arith })
  | inr e ↦
      rw (e, mod-eq_of_lt (below e))
        (record {
          multiple = mul-mod_left (x / a + 1) a;
          above = omega (arith, mod-lt x h, div-add-mod' x a, next);
          near = at_most e;
        })
]
  where
    exact : (x % a == 0) ≡ true → (x / a + 0) * a ≡ x
    exact e = omega (arith, div-add-mod' x a, (==_iff (x % a) 0).0 e)

    next : (x / a + 1) * a ≡ x / a * a + a
    next = omega arith

    at_most : (x % a == 0) ≡ false → (x / a + 1) * a < x + a
    at_most e = ground (arith, div-add-mod' x a, next)

    below : (x % a == 0) ≡ false → (x / a + 1) * a < m
    below e = omega (arith, at_most e)

-- The offsets follow one another from `pos` on, each a multiple of its field's alignment, with
-- less than that alignment of padding in front; the last field ends at `end`.
abbrev pub IsLaidOut : ℕ → List StructFieldInfo → List ℕ → ℕ → Type 0
IsLaidOut pos [] [] end = pos ≡ end
IsLaidOut pos (f ∷ fields) (o ∷ offsets) end =
    Aligned pos f.alignment o × IsLaidOut (o + f.size) fields offsets end
IsLaidOut pos _ _ end = ⊥

-- The room for the fields, each with as much padding as its alignment.
abbrev pub extent : List StructFieldInfo → ℕ
extent [] = 0
extent (f ∷ fields) = f.size + f.alignment + extent fields

abbrev pub largest_alignment : ℕ → List StructFieldInfo → ℕ
largest_alignment a [] = a
largest_alignment a (f ∷ fields) = largest_alignment (max a f.alignment) fields

abbrev pub HasAlignments : List StructFieldInfo → Type 0
HasAlignments = All (λ f. 0 < f.alignment)

max_alignment-lay_out :
    (m : ℕ) (fs : List StructFieldInfo) (pos a : ℕ)
    → (lay_out m fs pos a).max_alignment ≡ largest_alignment a fs
unfolding lay_out
max_alignment-lay_out m [] pos a = refl
max_alignment-lay_out m (f ∷ fs) pos a = max_alignment-lay_out m fs _ (max a f.alignment)

lay_out-IsLaidOut :
    (m : ℕ) (fs : List StructFieldInfo) (pos a : ℕ)
    → HasAlignments fs
    → pos + extent fs < m
    → let l = lay_out m fs pos a in
      IsLaidOut pos fs l.offsets l.current_offset × (l.current_offset ≤ pos + extent fs)
unfolding lay_out
lay_out-IsLaidOut m [] pos a h k = (refl, omega arith)
lay_out-IsLaidOut m (f ∷ fs) pos a h k =
    let o = align_up-Aligned m pos f.alignment h.0 (omega arith) in
    let fits : (align_up m pos f.alignment + f.size) % m ≡ align_up m pos f.alignment + f.size =
      mod-eq_of_lt (omega arith) in
    let (rest, end) =
      lay_out-IsLaidOut m fs (align_up m pos f.alignment + f.size) (max a f.alignment) h.1
        (omega arith) in
    rw fits ((o, rest), omega arith)

largest_alignment-pos : (a : ℕ) (fs : List StructFieldInfo) → 0 < a → 0 < largest_alignment a fs
largest_alignment-pos a [] h = h
largest_alignment-pos a (f ∷ fs) h = largest_alignment-pos (max a f.alignment) fs (omega arith)

-- For fields with alignments above zero, whose sizes and alignments together with the largest
-- alignment do not exceed the modulus, the offsets are laid out from zero on: each field begins
-- at the first multiple of its alignment behind the field before it, and the total size is the
-- first multiple of the largest alignment behind the last field.
pub compute_struct_info-IsLaidOut :
    (m : ℕ) (fields : List StructFieldInfo)
    → HasAlignments fields
    → extent fields + largest_alignment 1 fields ≤ m
    → let info = compute_struct_info m fields in
      (end : ℕ) × IsLaidOut 0 fields info.offsets end
      × Aligned end (largest_alignment 1 fields) info.total_size
unfolding compute_struct_info
compute_struct_info-IsLaidOut m fields h k =
    let pos = largest_alignment-pos 1 fields (omega arith) in
    let (laid_out, end) = lay_out-IsLaidOut m fields 0 1 h (omega arith) in
    (
      (lay_out m fields 0 1).current_offset,
      laid_out,
      rw (max_alignment-lay_out m fields 0 1) (align_up-Aligned m _ _ pos (omega arith)),
    )
