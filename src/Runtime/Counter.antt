-- ===== src/Runtime/Counter.antt =====
-- `incrementStringCounter` of internal/airuntime/orchestrator.go
use Prim.Native.String.{String}
use mnemosyne_os.Base.{
  ℕ, ◌+◌, ◌-◌, ◌^◌, Option, none, some, List, ltb, if◌then◌else◌, decided, ℕ_discrete,
}
use mnemosyne_os.Base.Text.{trim_space, codes}
use mnemosyne_os.Base.Number.{decimal, read_number}

abbrev max_int : ℕ
max_int = 2 ^ 63 - 1

-- What `value + 1` prints; the sum wraps at the largest number.
print_next : ℕ → String
print_next v =
    if ltb max_int v
    then "1"
    else if decided (ℕ_discrete v max_int)
    then "-9223372036854775808"
    else decimal (v + 1)

or_one : Option ℕ → String
unfolding print_next
or_one none = "1"
or_one (some v) = print_next v

-- fmt.Sscanf's %d: an optional sign, and digits. A number below 0, or no number, gives "1", and so
-- does minus zero.
scan_and_count : List ℕ → String
unfolding or_one
scan_and_count List.[] = "1"
scan_and_count (List.◌∷◌ c t) =
    if decided (ℕ_discrete c b'-')
    then "1"
    else if decided (ℕ_discrete c b'+')
    then or_one (read_number t)
    else or_one (read_number (List.◌∷◌ c t))

unfoldable pub increment_counter : String → String
unfolding scan_and_count
increment_counter raw = scan_and_count (codes (trim_space raw))
