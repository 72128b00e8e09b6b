-- ===== src/Epoch/Tests.antt =====
-- src/epoch.rs: the module's own tests, and the theorems at concrete epochs.
use cdpt.Base.{◌%◌, ◌^◌, ◌≡◌, refl, arith, some, none, true, false}
use cdpt.Epoch.{Epoch, rt, ct, c1, starting, is_pinned, pinned, unpinned}
use cdpt.Epoch.{phase, with_phase, color, with_color, timestamp, with_timestamp}
use cdpt.Epoch.Fields.{fields, Updates, epoch-Updates, fields-injective}

-- `epoch_all_fields_combined`
combined : Epoch
combined = pinned (with_timestamp (with_color (with_phase starting ct) c1) 99)

combined-fields :
    fields combined ≡ record { is_pinned = true; phase = some ct; color = c1; timestamp = 99 }
unfolding combined is_pinned phase color timestamp pinned with_timestamp with_color with_phase
combined-fields = refl

-- Phase number 3, at which `phase` panics.
invalid_phase : phase (record { data_bits = 6 }) ≡ none
unfolding phase
invalid_phase = refl

abbrev sample : Epoch
sample = record { data_bits = 0x2a5 }

epoch-Updates_example :
    Updates sample (with_phase sample rt) (λ f. record f { phase = some rt })
    × Updates sample (with_color sample c1) (λ f. record f { color = c1 })
    × Updates sample (with_timestamp sample 7) (λ f. record f { timestamp = 7 % 2 ^ 60 })
    × Updates sample (pinned sample) (λ f. record f { is_pinned = true })
    × Updates sample (unpinned sample) (λ f. record f { is_pinned = false })
epoch-Updates_example = epoch-Updates sample rt c1 7 (omega arith)

fields-injective_example : sample ≡ sample
fields-injective_example = fields-injective sample sample (omega arith) (omega arith) refl
