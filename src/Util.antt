-- ===== src/Util.antt =====
-- apib/apib_util.cc, and the character classes of <ctype.h> in the C locale that the program uses.
use apib.Prelude.{
  ℕ, ◌+◌, ◌≡◌, ◌↔◌, refl, ap, Bool, true, false, not, ◌&&◌, ◌||◌, [], ◌∷◌, map, Bytes, arith,
  length, leb, ◌==◌, ==_iff, if◌then◌else◌, length-map, Bool-cases, inl, inr,
}

unfoldable pub is_upper : ℕ → Bool
is_upper c = leb b'A' c && leb c b'Z'

unfoldable pub is_lower : ℕ → Bool
is_lower c = leb b'a' c && leb c b'z'

unfoldable pub is_digit : ℕ → Bool
is_digit c = leb b'0' c && leb c b'9'

-- isalnum; a byte from 128 up is a negative `char`, for which it is false.
unfoldable pub is_alnum : ℕ → Bool
unfolding is_upper is_lower is_digit
is_alnum c = is_digit c || is_upper c || is_lower c

unfoldable pub is_space : ℕ → Bool
is_space c = c == 32 || (leb 9 c && leb c 13)

unfoldable pub to_lower : ℕ → ℕ
unfolding is_upper
to_lower c = if is_upper c then c + 32 else c

-- the loop of `eqcase`, on texts of one length
unfoldable pub eqcase_loop : Bytes → Bytes → Bool
eqcase_loop (x ∷ xs) (y ∷ ys) = if not (to_lower x == to_lower y) then false else eqcase_loop xs ys
eqcase_loop _ _ = true

unfoldable pub eqcase : Bytes → Bytes → Bool
eqcase s1 s2 = if not (length s1 == length s2) then false else eqcase_loop s1 s2

eqcase_loop_iff :
    (a b : Bytes)
    → length a ≡ length b
    → (eqcase_loop a b ≡ true) ↔ (map to_lower a ≡ map to_lower b)
unfolding eqcase_loop
eqcase_loop_iff [] [] h = (λ _. refl, λ _. refl)
eqcase_loop_iff [] (y ∷ b) h = absurd (omega arith)
eqcase_loop_iff (x ∷ a) [] h = absurd (omega arith)
eqcase_loop_iff (x ∷ a) (y ∷ b) h = let ih = eqcase_loop_iff a b (omega arith) in ground (arith, ih)

-- eqcase holds exactly of texts that are equal when every letter is in lower case.
pub eqcase_iff : (a b : Bytes) → (eqcase a b ≡ true) ↔ (map to_lower a ≡ map to_lower b)
unfolding eqcase
eqcase_iff a b = elim (Bool-cases (length a == length b)) [
  | inl same ↦ rw same (eqcase_loop_iff a b ((==_iff (length a) (length b)).0 same))
  | inr differ ↦ rw differ (
    λ h. cc,
    λ h. absurd (ground (arith, length-map to_lower a, length-map to_lower b, ap length h)),
  )
]
