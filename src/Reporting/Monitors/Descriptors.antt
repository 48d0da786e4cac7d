-- ===== src/Reporting/Monitors/Descriptors.antt =====
-- apib/apib_reporting.cc: which descriptors of a remote monitor are closed, and how often.
use apib.Prelude.{
  ℕ, zero, suc, ◌<◌, ◌≡◌, refl, sym, ap, ◌∙◌, subst, true, false, Bool-cases, inl, inr, Option,
  none, some, List, [], ◌∷◌, ◌++◌, append-nil, All, Bytes, codes, length, ◌==◌, arith, if-true,
  if-false, ◌>>=◌,
}
use apib.Prelude.Int.{ℤ}
use apib.Reporting.Monitors.{
  Remote, Dial, Exchange, split_at_colon, connect_monitor, with_host, with_port, dialled,
  get_remote_stat, wrote_all, after_read, failure, sample, start, connect_or_ask, stop,
  end_reporting,
}

-- one use of a monitor: RecordStart, SampleCPU or ReportInterval, RecordStop
pub data Use : Type 0 where
  starts : Dial → Exchange → Use
  samples : Exchange → Use
  stops : Exchange → Exchange → Use

-- there is a descriptor, and ::connect succeeds
abbrev pub Connects : Use → Type 0
Connects (Use.starts dial x) = (0 < dial.socket) × (dial.connect_ok ≡ true)
Connects (Use.samples x) = Unit
Connects (Use.stops x y) = Unit

abbrev pub held : ℕ → List ℕ
held zero = []
held (suc n) = suc n ∷ []

module _ {D : Type 0} (zero_double : D) (strtod : Bytes → D) (simple_atoi : Bytes → Option ℤ) where
  abbrev pub apply : Use → Remote D → Option (Remote D)
  apply (Use.starts dial x) m = start zero_double strtod simple_atoi dial x m
  apply (Use.samples x) m = some (sample zero_double strtod simple_atoi x m)
  apply (Use.stops x y) m = some (stop zero_double strtod simple_atoi x y m)

  abbrev pub apply_all : List Use → Remote D → Option (Remote D)
  apply_all [] m = some m
  apply_all (u ∷ us) m = apply u m >>= λ m'. apply_all us m'

  -- every descriptor that was opened is closed, in order, but for the one that is held
  abbrev pub Owned : Remote D → Type 0
  Owned m = m.opened ≡ m.closed ++ held m.fd

  held-open : (n : ℕ) → (n == 0) ≡ false → held n ≡ n ∷ []
  held-open zero e = cc
  held-open (suc n) e = refl

  held-none : (n : ℕ) → (n == 0) ≡ true → held n ≡ []
  held-none zero e = refl
  held-none (suc n) e = absurd (let f : suc n ≡ 0 = ground arith in omega (arith, f))

  failure-Owned :
      (m : Remote D)
      → (m.fd == 0) ≡ false
      → Owned m
      → Owned (failure zero_double strtod simple_atoi m).1
  failure-Owned m is_open o =
      o
      ∙ ap (λ l. m.closed ++ l) (held-open m.fd is_open)
      ∙ sym (append-nil (m.closed ++ (m.fd ∷ [])))

  get_remote_stat-Owned :
      (cmd : Bytes) (x : Exchange) (m : Remote D)
      → (m.fd == 0) ≡ false
      → Owned m
      → Owned (get_remote_stat zero_double strtod simple_atoi cmd x m).1
  unfolding get_remote_stat
  get_remote_stat-Owned cmd x m is_open o =
      elim (Bool-cases (wrote_all zero_double strtod simple_atoi x.wrote (length cmd))) [
        | inl whole ↦
            subst (λ (p : D × Remote D). Owned p.1) (sym (if-true _ _ _ whole)) (read x.got)
        | inr part ↦
            subst (λ (p : D × Remote D). Owned p.1) (sym (if-false _ _ _ part))
              (failure-Owned m is_open o)
      ]
    where
      read : (got : Option Bytes) → Owned (after_read zero_double strtod simple_atoi m got).1
      read none = failure-Owned m is_open o
      read (some buf) = o

  sample-Owned :
      (x : Exchange) (m : Remote D) → Owned m → Owned (sample zero_double strtod simple_atoi x m)
  unfolding sample
  sample-Owned x m o = elim (Bool-cases (m.fd == 0)) [
    | inl closed ↦ subst Owned (sym (if-true _ _ _ closed)) o
    | inr is_open ↦
        subst Owned (sym (if-false _ _ _ is_open))
          (get_remote_stat-Owned (codes "cpu\n") x m is_open o)
  ]

  stop-Owned :
      (x y : Exchange) (m : Remote D) → Owned m → Owned (stop zero_double strtod simple_atoi x y m)
  unfolding stop
  stop-Owned x y m o =
      let m' = sample zero_double strtod simple_atoi x m in
      let o' = sample-Owned x m o in
      elim (Bool-cases (m'.fd == 0)) [
        | inl closed ↦ subst Owned (sym (if-true _ _ _ closed)) o'
        | inr is_open ↦
            subst Owned (sym (if-false _ _ _ is_open))
              (get_remote_stat-Owned (codes "mem\n") y m' is_open o')
      ]

  -- a call that does not fail its assertion, and keeps the account
  abbrev Keeps : Option (Remote D) → Type 0
  Keeps r = (m : Remote D) × (r ≡ some m) × Owned m

  dialled-Keeps :
      (dial : Dial) (m : Remote D)
      → 0 < dial.socket
      → dial.connect_ok ≡ true
      → (m.fd == 0) ≡ true
      → Owned m
      → Keeps (dialled dial m)
  dialled-Keeps dial m pos ok closed o =
      let is_open : (dial.socket == 0) ≡ false = ground arith in
      (
        record m { fd = dial.socket; opened = m.opened ++ (dial.socket ∷ []) },
        if-false _ _ _ is_open ∙ ap some (if-true _ _ _ ok),
        ap (λ l. l ++ (dial.socket ∷ []))
              (o ∙ ap (λ l. m.closed ++ l) (held-none m.fd closed) ∙ append-nil m.closed)
            ∙ ap (λ l. m.closed ++ l) (sym (held-open dial.socket is_open)),
      )

  connect_monitor-Keeps :
      (dial : Dial) (m : Remote D)
      → 0 < dial.socket
      → dial.connect_ok ≡ true
      → (m.fd == 0) ≡ true
      → Owned m
      → Keeps (connect_monitor simple_atoi dial m)
  unfolding connect_monitor
  connect_monitor-Keeps dial m pos ok closed o = host (split_at_colon m.host)
    where
      port : (p : Option ℤ) → Keeps (with_port dial m p)
      port none = (m, refl, o)
      port (some n) = elim (Bool-cases dial.lookup_ok) [
        | inl found ↦ subst Keeps (sym (if-true _ _ _ found)) (dialled-Keeps dial m pos ok closed o)
        | inr unknown ↦ (m, if-false _ _ _ unknown, o)
      ]

      host : (h : Option (Bytes × Bytes)) → Keeps (with_host simple_atoi dial m h)
      host none = (m, refl, o)
      host (some (name, text)) = port (simple_atoi text)

  connect_or_ask-Keeps :
      (dial : Dial) (x : Exchange) (m : Remote D) (host : Bytes)
      → 0 < dial.socket
      → dial.connect_ok ≡ true
      → Owned m
      → Keeps (connect_or_ask zero_double strtod simple_atoi dial x m host)
  connect_or_ask-Keeps dial x m [] pos ok o = (m, refl, o)
  connect_or_ask-Keeps dial x m (c ∷ host) pos ok o = elim (Bool-cases (m.fd == 0)) [
    | inl closed ↦
        subst Keeps (sym (if-true _ _ _ closed)) (connect_monitor-Keeps dial m pos ok closed o)
    | inr is_open ↦ (_, if-false _ _ _ is_open, get_remote_stat-Owned (codes "cpu\n") x m is_open o)
  ]

  apply-Keeps : (u : Use) (m : Remote D) → Connects u → Owned m → Keeps (apply u m)
  unfolding start
  apply-Keeps (Use.starts dial x) m h o =
      let (m', e, o') = connect_or_ask-Keeps dial x m m.host h.0 h.1 o in
      (record m' { samples = [] }, rw e refl, o')
  apply-Keeps (Use.samples x) m h o = (_, refl, sample-Owned x m o)
  apply-Keeps (Use.stops x y) m h o = (_, refl, stop-Owned x y m o)

  end_reporting-opened : (m : Remote D) → (end_reporting m).opened ≡ m.opened
  unfolding end_reporting
  end_reporting-opened m = elim (Bool-cases (m.fd == 0)) [
    | inl closed ↦ ap (λ (r : Remote D). r.opened) (if-true _ _ _ closed)
    | inr is_open ↦ ap (λ (r : Remote D). r.opened) (if-false _ _ _ is_open)
  ]

  end_reporting-closed : (m : Remote D) → Owned m → (end_reporting m).closed ≡ m.opened
  unfolding end_reporting
  end_reporting-closed m o = elim (Bool-cases (m.fd == 0)) [
    | inl closed ↦
        ap (λ (r : Remote D). r.closed) (if-true _ _ _ closed)
        ∙ sym (o ∙ ap (λ l. m.closed ++ l) (held-none m.fd closed) ∙ append-nil m.closed)
    | inr is_open ↦
        ap (λ (r : Remote D). r.closed) (if-false _ _ _ is_open)
        ∙ sym (o ∙ ap (λ l. m.closed ++ l) (held-open m.fd is_open))
  ]

  -- Where every connection to a monitor gets a descriptor and succeeds, and whatever the monitor
  -- answers or fails to answer: however RecordStart, the samples and RecordStop follow one
  -- another, they fail no assertion, and behind EndReporting each descriptor that was opened is
  -- closed exactly once, in the order of their opening, if this was so but for the one held
  -- before.
  pub end_reporting-closes :
      (us : List Use) (m : Remote D)
      → All Connects us
      → Owned m
      → (m' : Remote D) × (apply_all us m ≡ some m')
        × ((end_reporting m').closed ≡ (end_reporting m').opened)
  unfolding end_reporting
  end_reporting-closes [] m h o = (m, refl, end_reporting-closed m o ∙ sym (end_reporting-opened m))
  end_reporting-closes (u ∷ us) m h o =
      let (m', e, o') = apply-Keeps u m h.0 o in
      let (m'', f, g) = end_reporting-closes us m' h.1 o' in (m'', rw e f, g)

  -- Where a monitor has a host that can be looked up and a port that is a number, no descriptor is
  -- held, and ::connect fails, connectMonitor closes the descriptor and keeps its number, so that
  -- EndReporting closes it a second time.
  pub failed_dial-closes_twice :
      (dial : Dial) (m : Remote D) (name port : Bytes) (n : ℤ)
      → m.fd ≡ 0
      → split_at_colon m.host ≡ some (name, port)
      → simple_atoi port ≡ some n
      → dial.lookup_ok ≡ true
      → 0 < dial.socket
      → dial.connect_ok ≡ false
      → (m' : Remote D) × (connect_monitor simple_atoi dial m ≡ some m')
        × ((end_reporting m').closed ≡ (m.closed ++ (dial.socket ∷ [])) ++ (dial.socket ∷ []))
  unfolding connect_monitor end_reporting
  failed_dial-closes_twice dial m name port n e f g found pos refused =
      let is_open : (dial.socket == 0) ≡ false = ground arith in
      rw (f, g, found, is_open, refused)
        (_, refl, ap (λ (r : Remote D). r.closed) (if-false _ _ _ is_open))
