-- ===== src/Cpu/Amounts.antt =====
-- What the lines of /proc/meminfo say, name by name, and the share that apib/apib_cpu_proc.cc makes
-- of it.
use apib.Prelude.{
  Bool, true, false, not, ◌&&◌, ◌||◌, Option, some, none, List, [], ◌∷◌, Bytes, codes, equal,
  if◌then◌else◌,
}
use apib.Prelude.Int.{ℤ, ◌+ℤ◌, ◌-ℤ◌, is_at_most_zero}
use apib.Prelude.Doubles.{Doubles}
use apib.Lines.Words.{word, behind_word}

abbrev pub spaces : Bytes
spaces = codes " "

-- the first two words of a line
abbrev pub name_of : Bytes → Bytes
name_of l = word spaces l

abbrev pub value_of : Bytes → Bytes
value_of l = word spaces (behind_word spaces l)

-- the four names that count
abbrev pub total_name : Bytes
total_name = codes "MemTotal:"

abbrev pub free_name : Bytes
free_name = codes "MemFree:"

abbrev pub buffers_name : Bytes
buffers_name = codes "Buffers:"

abbrev pub cached_name : Bytes
cached_name = codes "Cached:"

abbrev pub is_counted : Bytes → Bool
is_counted n =
    equal total_name n || equal free_name n || equal buffers_name n || equal cached_name n

module _ (simple_atoi : Bytes → Option ℤ) where
  abbrev number_or : ℤ → Option ℤ → ℤ
  number_or v none = v
  number_or v (some x) = x

  abbrev is_number : Option ℤ → Bool
  is_number none = false
  is_number (some x) = true

  -- the value of the last of these lines with this name, or `v`
  abbrev pub amount_from : ℤ → Bytes → List Bytes → ℤ
  amount_from v name [] = v
  amount_from v name (l ∷ ls) =
      amount_from (if equal name (name_of l) then number_or v (simple_atoi (value_of l)) else v)
        name ls

  abbrev pub amount : Bytes → List Bytes → ℤ
  amount name ls = amount_from (ℤ.pos 0) name ls

  -- every value of the four names is a number
  abbrev pub all_numbers : List Bytes → Bool
  all_numbers [] = true
  all_numbers (l ∷ ls) =
      (not (is_counted (name_of l)) || is_number (simple_atoi (value_of l))) && all_numbers ls

  -- the share of the memory that is not free, nor in buffers, nor cached
  abbrev pub memory_share : (d : Doubles) → List Bytes → d.D
  memory_share d ls =
      let total = amount total_name ls in
      let free = amount free_name ls in
      let unused = free +ℤ amount buffers_name ls +ℤ amount cached_name ls in
      if not (all_numbers ls) || is_at_most_zero total || is_at_most_zero free
      then d.of 0
      else d.div (d.of_int (total -ℤ unused)) (d.of_int total)
