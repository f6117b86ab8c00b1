-- ===== src/Log/Tests.antt =====
-- A line of the log, with the fields in two orders.
use mathlib.Core.List.{Nodup-nil, not-mem-nil}
use mathlib.Core.List.Perm
use rubble.Prelude.{String, ◌≡◌, refl, Option, none, some, [], ◌∷◌}
use rubble.Prelude.Run.{ok}
use rubble.Prelude.Assoc.{lookup}
use rubble.Pool.Tests.{distinct_cons, absent_cons}
use rubble.Log.Order.{format-perm}
use rubble.Prelude.Strings.{join}
use rubble.Log.{
  Entry, format, first_letter, key_values, file_name, kv, pairs, sort_strings, insert_sorted,
  leb_string, leb_codes,
}

abbrev shown : Option String → String
shown none = "<nil>"
shown (some v) = v

abbrev line : Entry String
line = record {
  buffer = none;
  level = "info";
  day = "0614";
  clock = "10:00:00";
  caller = some ("pool.go", 7);
  fields = ("pod", "web-0") ∷ ("ip", "10.0.0.7") ∷ [];
  message = "lent";
}

printed :
    format shown (λ n. "7") (λ path. path) (λ s. "I") line
    ≡ ok "I0614 10:00:00 pool.go:7] ip=10.0.0.7 pod=web-0 lent\n"
unfolding format first_letter key_values file_name kv pairs join sort_strings insert_sorted
    leb_string leb_codes lookup
printed = refl

format-perm_example :
    format shown (λ n. "7") (λ path. path) (λ s. "I") line
    ≡ format shown
        (λ n. "7")
        (λ path. path)
        (λ s. "I")
        (record line { fields = ("ip", "10.0.0.7") ∷ ("pod", "web-0") ∷ [] })
format-perm_example =
    format-perm shown (λ n. "7") (λ path. path) (λ s. "I") line
      (("ip", "10.0.0.7") ∷ ("pod", "web-0") ∷ [])
      (distinct_cons "pod" _ (absent_cons "pod" "ip" _ refl not-mem-nil)
        (distinct_cons "ip" _ not-mem-nil Nodup-nil))
      (Perm.swap ("ip", "10.0.0.7") ("pod", "web-0") [])
