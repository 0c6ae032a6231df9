-- ===== src/Capture/Tests.antt =====
-- Captures on concrete calls.
use cogni_gate.Prelude.{refl, arith, Text, codes, lookup}
use cogni_gate.Capture.{Entry, new_store, put, bucket_of, empty_bucket}
use cogni_gate.Capture.Budget.{AllFit, put-AllFit, total}

abbrev first : Entry
first = record { at = 10; expires_at = 100; request = codes "ask"; response = codes "answer" }

abbrev acme : Text
acme = codes "acme"

new_store-AllFit : AllFit (new_store 600)
unfolding new_store bucket_of empty_bucket lookup total
new_store-AllFit t = (refl, omega arith)

put-AllFit_example : AllFit (put (new_store 600) acme first).0
put-AllFit_example = put-AllFit (new_store 600) acme first new_store-AllFit
