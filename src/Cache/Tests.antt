-- ===== src/Cache/Tests.antt =====
-- The response cache on concrete calls.
use cogni_gate.Prelude.{◌≡◌, ◌≤◌, refl, some, arith, Text, codes, lookup, insert, delete, text_dec}
use cogni_gate.Cache.{
  Cache, Entry, new_cache, put, get, flush, entry_size, stats, evict, add, replaced, back,
  remove_element,
}
use cogni_gate.Cache.Operations.{empty-Agrees}
use cogni_gate.Cache.Eviction.{Within}
use cogni_gate.Cache.Promises.{put-Within, get-put}
use cogni_gate.Cache.Flush.{Flushed, flush-Flushed}

abbrev answer : Entry
answer = record { body = codes "0123456789"; provider = codes "p"; model = codes "m" }

abbrev key_a : Text
key_a = codes "a"

abbrev key_b : Text
key_b = codes "b"

abbrev acme : Text
acme = codes "acme"

abbrev zeta : Text
zeta = codes "zeta"

-- A budget for two entries.
abbrev one_entry : Cache
one_entry = put (new_cache 30 20) acme key_a answer 60 5

one_entry-Within : Within (new_cache 30 20) one_entry
unfolding new_cache
one_entry-Within =
    put-Within (new_cache 30 20) acme key_a answer 60 5 (empty-Agrees 30 20) (omega arith)

one_fits : one_entry.bytes ≤ one_entry.max_bytes
one_fits = ground (arith, one_entry-Within.1, one_entry-Within.2)

abbrev two_entries : Cache
two_entries = put one_entry zeta key_b answer 60 6

put-Within_example : Within one_entry two_entries
put-Within_example = put-Within one_entry zeta key_b answer 60 6 one_entry-Within.0 one_fits

get-put_example : (get two_entries key_b 50).1 ≡ some answer
unfolding put evict add replaced lookup insert text_dec back remove_element delete new_cache
    entry_size
get-put_example =
    get-put one_entry zeta key_b answer 60 6 50 one_entry-Within.0 one_fits (omega arith)
      (omega arith) (omega arith) (omega arith)

flush-Flushed_example : Flushed two_entries acme (flush two_entries acme)
flush-Flushed_example = flush-Flushed two_entries acme put-Within_example.0

third_evicts : stats (put two_entries acme (codes "c") answer 60 7) ≡ (2, 26)
unfolding put evict add replaced lookup insert text_dec back remove_element delete new_cache
    entry_size stats
third_evicts = refl
