-- ===== src/Sdk/State/Monitors.antt =====
-- The monitors that run are those of the map: none leaks.
use mathlib.Core.Path.{subst}
use action_kit.Prelude.{
  ℕ, ◌+◌, ◌<◌, ◌≡◌, ◌∙◌, sym, refl, ap, inl, inr, false, not, Option, none, some, List, [], ◌∷◌,
  map, text_eq, text_eq_iff, arith, ◌==◌, keep, All, Bool-cases, Option-cases,
}
use action_kit.Sdk.State.{
  ExecutionId, Monitor, Sdk, find_monitor, stop_monitor, stop_monitor_heartbeat, monitor_heartbeat,
  extended_interval, record_heartbeat,
}

abbrev Entry : Type 0
Entry = ExecutionId × Monitor

-- The entry has another execution and another monitor.
abbrev Apart : Entry → Entry → Type 0
Apart d e = (text_eq e.0 d.0 ≡ false) × ((e.1.serial == d.1.serial) ≡ false)

abbrev Distinct : List Entry → Type 0
Distinct [] = Unit
Distinct (d ∷ rest) = All (Apart d) rest × Distinct rest

abbrev serials : List Entry → List ℕ
serials = map (λ e. e.1.serial)

-- The running monitors are those of the map, each under one execution; serials are not reused.
pub record NoLeak {J : Type 0} (s : Sdk J) : Type 0 where
  pub running_eq : s.running ≡ serials s.monitors
  pub distinct : Distinct s.monitors
  pub fresh : All (λ e. e.1.serial < s.next_serial) s.monitors

abbrev without : ExecutionId → List Entry → List Entry
without id = keep (λ e. not (text_eq e.0 id))

stop_serial : Option Monitor → List ℕ → List ℕ
stop_serial none rs = rs
stop_serial (some m) rs = keep (λ serial. not (serial == m.serial)) rs

-- what is apart from an entry is kept when the entry goes
keep-Apart :
    (d : Entry) (l : List Entry)
    → All (Apart d) l
    → (without d.0 l ≡ l) × (keep (λ serial. not (serial == d.1.serial)) (serials l) ≡ serials l)
keep-Apart d [] h = (refl, refl)
keep-Apart d (e ∷ l) h = ground (arith, keep-Apart d l h.1, h.0)

found-Apart :
    (id : ExecutionId) (d : Entry) (l : List Entry) (m : Monitor)
    → All (Apart d) l
    → find_monitor id l ≡ some m
    → (d.1.serial == m.serial) ≡ false
unfolding find_monitor
found-Apart id d [] m h e = cc
found-Apart id d ((k, n) ∷ l) m h e = ground (arith, found-Apart id d l m h.1, h.0)

serials-without :
    (id : ExecutionId) (l : List Entry)
    → Distinct l
    → serials (without id l) ≡ stop_serial (find_monitor id l) (serials l)
unfolding find_monitor stop_serial
serials-without id [] h = refl
serials-without id ((k, m) ∷ l) (apart, h) =
    let rest = serials-without id l h in
    elim (Bool-cases (text_eq k id)) [
      | inl same ↦
          let key : k ≡ id = (text_eq_iff k id).0 same in
          let known = keep-Apart (id, m) l (subst (λ t. All (Apart (t, m)) l) key apart) in
          rw same (ground (arith, known))
      | inr ne ↦ elim (Option-cases (find_monitor id l)) [
        | inl missing ↦ rw (ne, missing) (cc (rest, ap (λ o. stop_serial o (serials l)) missing))
        | inr (found, e) ↦
            let other = found-Apart id (k, m) l found apart e in
            rw (ne, e, other) (cc (rest, ap (λ o. stop_serial o (serials l)) e))
      ]
    ]

All-without :
    (P : Entry → Type 0) (id : ExecutionId) (l : List Entry) → All P l → All P (without id l)
All-without P id [] h = tt
All-without P id (e ∷ l) h =
    let rest = All-without P id l h.1 in
    elim (Bool-cases (text_eq e.0 id)) [ inl gone ↦ rw gone rest | inr kept ↦ rw kept (h.0, rest) ]

Distinct-without : (id : ExecutionId) (l : List Entry) → Distinct l → Distinct (without id l)
Distinct-without id [] h = tt
Distinct-without id (e ∷ l) h =
    let rest = Distinct-without id l h.1 in
    let apart = All-without (Apart e) id l h.0 in
    elim (Bool-cases (text_eq e.0 id)) [
      | inl gone ↦ rw gone rest
      | inr kept ↦ rw kept (apart, rest)
    ]

-- no entry of the execution is left
without_key : (id : ExecutionId) (l : List Entry) → All (λ e. text_eq e.0 id ≡ false) (without id l)
without_key id [] = tt
without_key id (e ∷ l) =
    let rest = without_key id l in
    elim (Bool-cases (text_eq e.0 id)) [ inl gone ↦ rw gone rest | inr kept ↦ rw kept (kept, rest) ]

fresh-Apart :
    (id : ExecutionId) (m : Monitor) (l : List Entry)
    → All (λ e. e.1.serial < m.serial) l
    → All (λ e. text_eq e.0 id ≡ false) l
    → All (Apart (id, m)) l
fresh-Apart id m [] hs hk = tt
fresh-Apart id m (e ∷ l) hs hk = ((hk.0, ground arith), fresh-Apart id m l hs.1 hk.1)

raise : (n : ℕ) (l : List Entry) → All (λ e. e.1.serial < n) l → All (λ e. e.1.serial < n + 1) l
raise n [] h = tt
raise n (e ∷ l) h = (omega (arith, h.0), raise n l h.1)

module _ {J : Type 0} where
  running-stop_monitor :
      (o : Option Monitor) (s : Sdk J) → (stop_monitor o s).running ≡ stop_serial o s.running
  unfolding stop_monitor stop_serial
  running-stop_monitor none s = refl
  running-stop_monitor (some m) s = refl

  next_serial-stop_monitor :
      (o : Option Monitor) (s : Sdk J) → (stop_monitor o s).next_serial ≡ s.next_serial
  unfolding stop_monitor
  next_serial-stop_monitor none s = refl
  next_serial-stop_monitor (some m) s = refl

  -- what is left running when the monitor of an execution is stopped
  running_left :
      (id : ExecutionId) (s : Sdk J)
      → NoLeak s
      → (stop_monitor (find_monitor id s.monitors) s).running ≡ serials (without id s.monitors)
  running_left id s h =
      running-stop_monitor (find_monitor id s.monitors) s
      ∙ ap (stop_serial (find_monitor id s.monitors)) h.running_eq
      ∙ sym (serials-without id s.monitors h.distinct)

  -- Stopping the heartbeat of an execution leaves no monitor without an entry.
  pub stop_monitor_heartbeat-NoLeak :
      (id : ExecutionId) (s : Sdk J) → NoLeak s → NoLeak (stop_monitor_heartbeat id s)
  unfolding stop_monitor_heartbeat
  stop_monitor_heartbeat-NoLeak id s h = record {
    running_eq = running_left id s h;
    distinct = Distinct-without id s.monitors h.distinct;
    fresh =
        rw (next_serial-stop_monitor (find_monitor id s.monitors) s)
          (All-without (λ e. e.1.serial < s.next_serial) id s.monitors h.fresh);
  }

  -- Nor does a second Start of the same execution: the monitor that it replaces is stopped.
  pub monitor_heartbeat-NoLeak :
      (id : ExecutionId) (interval timeout : ℕ) (s : Sdk J)
      → NoLeak s
      → NoLeak (monitor_heartbeat id interval timeout s)
  unfolding monitor_heartbeat
  monitor_heartbeat-NoLeak id interval timeout s h =
      let left = All-without (λ e. e.1.serial < s.next_serial) id s.monitors h.fresh in
      record {
        running_eq = ap (λ rs. s.next_serial ∷ rs) (running_left id s h);
        distinct = (
          fresh-Apart id
              (record {
                serial = s.next_serial;
                interval = extended_interval interval;
                timeout = timeout;
              })
              (without id s.monitors) left (without_key id s.monitors),
          Distinct-without id s.monitors h.distinct,
        );
        fresh = (omega arith, raise s.next_serial (without id s.monitors) left);
      }

  -- what does not touch the monitors keeps the invariant
  pub NoLeak-unchanged :
      (s t : Sdk J)
      → s.running ≡ t.running
      → s.monitors ≡ t.monitors
      → s.next_serial ≡ t.next_serial
      → NoLeak s
      → NoLeak t
  NoLeak-unchanged s t er em es h = record {
    running_eq = sym er ∙ h.running_eq ∙ ap serials em;
    distinct = subst Distinct em h.distinct;
    fresh = rw⁻¹ (em, es) h.fresh;
  }

  pub record_heartbeat-NoLeak :
      (id : ExecutionId) (s : Sdk J) → NoLeak s → NoLeak (record_heartbeat id s)
  unfolding record_heartbeat
  record_heartbeat-NoLeak id s h = elim (Option-cases (find_monitor id s.monitors)) [
    | inl missing ↦ rw (missing, record_heartbeat) h
    | inr (m, found) ↦ rw (found, record_heartbeat) (NoLeak-unchanged s _ refl refl refl h)
  ]
