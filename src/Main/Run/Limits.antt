-- ===== src/Main/Run/Limits.antt =====
-- apib/apib_main.cc, setProcessLimits: the limits of the system are numbers of 64 bits, and are
-- compared as ints.
use apib.Prelude.{
  ℕ, ◌-◌, ◌%◌, ◌^◌, ◌<◌, ◌≤◌, ◌≡◌, ◌⊎◌, ◌↔◌, ◌≢◌, refl, Bool, true, false, Bool-cases, inl, inr,
  ltb, if◌then◌else◌, arith, ltb→lt,
}
use apib.Prelude.Int.{ℤ, as_int, as_int-small}
use apib.Main.Run.{set_process_limits}

as_int-large : (n : ℕ) → 2 ^ 31 ≤ n % 2 ^ 32 → as_int n ≡ ℤ.negsuc (2 ^ 32 - n % 2 ^ 32 - 1)
as_int-large n h = let l : ltb (n % 2 ^ 32) (2 ^ 31) ≡ false = ground arith in rw l refl

-- For limits of descriptors below 2 ^ 31, the soft one at most the hard one: setProcessLimits
-- succeeds exactly if the connections are fewer than the soft limit, or fewer than the hard limit
-- and the system takes the new soft limit.
pub set_process_limits-small :
    (n cur max : ℕ) (set_ok : Bool)
    → cur < 2 ^ 31
    → max < 2 ^ 31
    → cur ≤ max
    → ((set_process_limits (ℤ.pos n) cur max set_ok).0 ≡ ℤ.pos 0)
      ↔ ((n < cur) ⊎ ((n < max) × (set_ok ≡ true)))
unfolding set_process_limits
set_process_limits-small n cur max set_ok h k l =
    rw (as_int-small cur h, as_int-small max k)
      (elim (Bool-cases (ltb n cur)) [
        | inl soft ↦ rw soft (λ e. inl (ltb→lt n cur soft), λ e. refl)
        | inr over ↦ elim (Bool-cases (ltb n max)) [
          | inl hard ↦ rw (over, hard) (raised set_ok (le_of_ltb over) (ltb→lt n max hard))
          | inr none_left ↦
              rw (over, none_left)
                (
                  λ e. absurd (neg≢pos e),
                  λ e. absurd (no_room e (le_of_ltb over) (le_of_ltb none_left)),
                )
        ]
      ])
  where
    le_of_ltb : {m : ℕ} → ltb n m ≡ false → m ≤ n
    le_of_ltb {m} e = ground arith

    neg≢pos : ℤ.negsuc 0 ≢ ℤ.pos 0
    neg≢pos e = cc

    no_room : (n < cur) ⊎ ((n < max) × (set_ok ≡ true)) → cur ≤ n → max ≤ n → ⊥
    no_room (inl a) p q = omega arith
    no_room (inr (a, _)) p q = omega arith

    not_set : (n < cur) ⊎ ((n < max) × (false ≡ true)) → cur ≤ n → ⊥
    not_set (inl a) p = omega arith
    not_set (inr (_, a)) p = cc

    raised :
        (b : Bool)
        → cur ≤ n
        → n < max
        → ((if b then (let r : ℤ × ℕ = (ℤ.pos 0, max) in r) else (ℤ.negsuc 0, cur)).0 ≡ ℤ.pos 0)
          ↔ ((n < cur) ⊎ ((n < max) × (b ≡ true)))
    raised true p q = (λ e. inr (q, refl), λ e. refl)
    raised false p q = (λ e. absurd (neg≢pos e), λ e. absurd (not_set e p))

-- Where the limits of descriptors, as 32-bit ints, are negative, as without a limit,
-- setProcessLimits refuses every number of connections, and leaves the limit as it was.
pub set_process_limits-large :
    (n cur max : ℕ) (set_ok : Bool)
    → 2 ^ 31 ≤ cur % 2 ^ 32
    → 2 ^ 31 ≤ max % 2 ^ 32
    → set_process_limits (ℤ.pos n) cur max set_ok ≡ (ℤ.negsuc 0, cur)
unfolding set_process_limits
set_process_limits-large n cur max set_ok h k = rw (as_int-large cur h, as_int-large max k) refl
