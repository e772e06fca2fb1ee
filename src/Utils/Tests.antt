-- ===== src/Utils/Tests.antt =====
-- The theorems about src/utils/utils.hpp at concrete inputs.
use the_pipe.Base.{ℕ, ◌^◌, ◌≡◌, refl, true, List, [], ◌∷◌, arith, mem}
use the_pipe.Utils.FlatSet.{flat_set, IsStrictlyIncreasing, flat_set_lem}
use the_pipe.Utils.Segments.{InclusiveIntegralRange, for_each_disjoint_segment}
use the_pipe.Utils.Segments.Cover.{covers, for_each_disjoint_segment-covers}
use the_pipe.Utils.Segments.Order.{IsSeparated, for_each_disjoint_segment-IsSeparated}
use the_pipe.Utils.StructInfo.{
  StructFieldInfo, compute_struct_info, IsLaidOut, Aligned, compute_struct_info-IsLaidOut,
}

abbrev unsorted : List ℕ
unsorted = 9 ∷ 5 ∷ 9 ∷ 1 ∷ 5 ∷ []

flat_set-unsorted : flat_set unsorted ≡ 1 ∷ 5 ∷ 9 ∷ []
unfolding flat_set
flat_set-unsorted = refl

flat_set_lem_example :
    IsStrictlyIncreasing (flat_set unsorted)
    × ((a : ℕ) → mem a (flat_set unsorted) ≡ mem a unsorted)
flat_set_lem_example = flat_set_lem unsorted

-- The file descriptors above the standard streams.
abbrev descriptors : InclusiveIntegralRange
descriptors = record { start_at = 3; stop_at = 4294967295 }

abbrev kept : List ℕ
kept = 3 ∷ 8 ∷ []

segments-kept :
    for_each_disjoint_segment (2 ^ 32) descriptors kept
    ≡ record { start_at = 4; stop_at = 7 } ∷ record { start_at = 9; stop_at = 4294967295 } ∷ []
unfolding for_each_disjoint_segment
segments-kept = refl

-- The value 5 is skipped.
segments-last_split :
    for_each_disjoint_segment 256 (record { start_at = 0; stop_at = 5 }) (4 ∷ [])
    ≡ record { start_at = 0; stop_at = 3 } ∷ []
unfolding for_each_disjoint_segment
segments-last_split = refl

for_each_disjoint_segment-covers_example :
    covers (for_each_disjoint_segment (2 ^ 32) descriptors kept) 7 ≡ true
for_each_disjoint_segment-covers_example =
    for_each_disjoint_segment-covers (2 ^ 32) descriptors kept 7 (omega arith) (omega arith)
      (omega arith)

for_each_disjoint_segment-IsSeparated_example :
    IsSeparated 3 4294967295 (for_each_disjoint_segment (2 ^ 32) descriptors kept)
for_each_disjoint_segment-IsSeparated_example =
    for_each_disjoint_segment-IsSeparated (2 ^ 32) descriptors kept (omega arith) (omega arith)
      (omega arith)

-- A char, an int and a short.
abbrev fields : List StructFieldInfo
fields =
    record { size = 1; alignment = 1 }
    ∷ record { size = 4; alignment = 4 }
    ∷ record { size = 2; alignment = 2 }
    ∷ []

struct_info-fields :
    compute_struct_info (2 ^ 64) fields ≡ record { total_size = 12; offsets = 0 ∷ 4 ∷ 8 ∷ [] }
unfolding compute_struct_info
struct_info-fields = refl

compute_struct_info-IsLaidOut_example :
    let info = compute_struct_info (2 ^ 64) fields in
    (end : ℕ) × IsLaidOut 0 fields info.offsets end × Aligned end 4 info.total_size
compute_struct_info-IsLaidOut_example =
    compute_struct_info-IsLaidOut (2 ^ 64) fields (omega arith) (omega arith)
