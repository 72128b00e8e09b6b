-- ===== src/Ptr/Tests.antt =====
-- src/pointers.rs: the theorems on `ManPtr` at concrete links, for objects aligned to 8 bytes.
use cdpt.Base.{◌%◌, ◌^◌, ◌≡◌, refl, arith, bit_and, bit_or, bit_xor, true}
use cdpt.Epoch.{c1}
use cdpt.Ptr.{ManPtr, rooted, unrooted, meta, with_meta, without_meta, as_ptr, tag, with_tag}
use cdpt.Ptr.{is_null, fetch_tag_and, fetch_tag_or, fetch_tag_xor}
use cdpt.Ptr.Views.{fields}
use cdpt.Ptr.Fields.{link_updates, fetch_tag_and_clobbers}

-- Unrooted of color 1, address 0x1238, tag 5.
abbrev link : ManPtr
link = record { addr = 0xc000_0000_0000_123d }

link-fields : fields 3 link ≡ record { meta = unrooted c1; addr = 0x1238; tag = 5 }
unfolding meta as_ptr tag
link-fields = refl

-- A link to a live object is null after an update of its tag by `fetch_tag_and`.
link_lost : is_null 3 (fetch_tag_and 3 link 7).0 ≡ true
unfolding fetch_tag_and is_null
link_lost = refl

link_updates_example :
    (fields 3 (with_meta link rooted) ≡ record (fields 3 link) { meta = rooted })
    × (fields 3 (without_meta link) ≡ record (fields 3 link) { meta = rooted })
    × (fields 3 (with_tag 3 link 2) ≡ record (fields 3 link) { tag = 2 % 2 ^ 3 })
    × (fields 3 (fetch_tag_or 3 link 2).0
        ≡ record (fields 3 link) { tag = bit_or (tag 3 link) (2 % 2 ^ 3) })
    × (fields 3 (fetch_tag_xor 3 link 2).0
        ≡ record (fields 3 link) { tag = bit_xor (tag 3 link) (2 % 2 ^ 3) })
link_updates_example = link_updates 3 (omega arith) link rooted 2 (omega arith)

fetch_tag_and_clobbers_example :
    fields 3 (fetch_tag_and 3 link 7).0
    ≡ record { meta = rooted; addr = 0; tag = bit_and (tag 3 link) (7 % 2 ^ 3) }
fetch_tag_and_clobbers_example = fetch_tag_and_clobbers 3 (omega arith) link 7
