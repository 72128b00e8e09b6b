-- ===== src/Header/Tests.antt =====
-- src/pointers.rs: the theorems on object headers at concrete ones.
use cdpt.Base.{◌+◌, ◌-◌, ◌≡◌, refl, arith, some, [], ◌∷◌}
use cdpt.Epoch.{c0, c1}
use cdpt.Header.{ObjMeta, new_with_type_id, marked, with_marked, root_count, mark, mark_loop}
use cdpt.Header.{increment_root_count, decrement_root_count}
use cdpt.Header.Fields.{fields, fields-new_with_type_id, decrement-increment, fields-decrement}
use cdpt.Header.Mark.{IsMarked, mark_lem}

-- Color 1, type id 2, root count 3.
abbrev header : ObjMeta
header = record { bits = 0x8100_0000_0000_0003 }

header_new : new_with_type_id c1 3 2 ≡ header
unfolding new_with_type_id
header_new = refl

-- Another thread increments the root count before the first compare-exchange.
mark_run :
    mark 3 c0 (record { bits = 0x8100_0000_0000_0004 } ∷ []) header
    ≡ some (record { bits = 0x0100_0000_0000_0004 }, [])
unfolding mark mark_loop marked with_marked
mark_run = refl

fields-new_with_type_id_example :
    fields (new_with_type_id c1 3 2) ≡ record { marked = c1; type_id = 2; root_count = 3 }
fields-new_with_type_id_example = fields-new_with_type_id c1 3 2 (omega arith) (omega arith)

header_count : root_count header ≡ 3
unfolding root_count
header_count = refl

decrement-increment_example :
    (fields (increment_root_count header).0
      ≡ record (fields header) { root_count = root_count header + 1 })
    × (decrement_root_count (increment_root_count header).0 ≡ (header, root_count header + 1))
decrement-increment_example = decrement-increment header (omega arith) (omega (arith, header_count))

fields-decrement_example :
    (fields (decrement_root_count header).0
      ≡ record (fields header) { root_count = root_count header - 1 })
    × ((decrement_root_count header).1 ≡ root_count header)
fields-decrement_example = fields-decrement header (omega arith) (omega (arith, header_count))

mark_lem_example : IsMarked c0 header (header ∷ []) (mark 2 c0 (header ∷ []) header)
mark_lem_example = mark_lem 2 c0 (header ∷ []) header (omega arith)
