-- ===== src/Logs/Tail.antt =====
-- Which lines FetchLogs of internal/grpc/server.go answers with.
use text.Mathlib.TextLemmas.{append_cancel_left}
use mathlib.Core.List.{append-nil, append_assoc}
use gpu_cluster_scheduler.Common.{
  ℕ, zero, suc, ◌-◌, ◌≤◌, leb, length, length-append, ℤ, pos, pos_part, leb_ℤ, leb_ℤ→gt, String,
  str_eq, str_eq_iff, Bool-cases, true, false, if◌then◌else◌, inl, inr, some, List, [], ◌∷◌, ◌++◌,
  ◌≡◌, refl, sym, ap, subst, ◌∙◌, arith,
}
use gpu_cluster_scheduler.Logs.{
  drop, last, ListStore, IsListStore, LogLine, log_key, format_log, push_line, cache_line,
  stream_logs, fetch_logs,
}

module _ {A : Type 0} where
  length-drop : (k : ℕ) (xs : List A) → length (drop k xs) ≡ length xs - k
  length-drop zero xs = omega arith
  length-drop (suc k) [] = omega arith
  length-drop (suc k) (x ∷ xs) = omega (arith, length-drop k xs)

  drop-append : (k : ℕ) (xs ys : List A) → k ≤ length xs → drop k (xs ++ ys) ≡ drop k xs ++ ys
  drop-append zero xs ys h = refl
  drop-append (suc k) [] ys h = absurd (omega arith)
  drop-append (suc k) (x ∷ xs) ys h = drop-append k xs ys (omega arith)

  drop-drop : (k : ℕ) (xs : List A) → drop 1 (drop k xs) ≡ drop (suc k) xs
  drop-drop zero xs = refl
  drop-drop (suc k) [] = refl
  drop-drop (suc k) (x ∷ xs) = drop-drop k xs

  last_all : (n : ℕ) (xs : List A) → length xs ≤ n → last n xs ≡ xs
  last_all n xs h =
      let none_over : length xs - n ≡ 0 = omega arith in
      subst (λ k. drop k xs ≡ xs) (sym none_over) refl

  -- Trimming before an entry is added changes nothing of what is kept after it.
  last-snoc : (n : ℕ) (xs : List A) (v : A) → last n (last n xs ++ v ∷ []) ≡ last n (xs ++ v ∷ [])
  last-snoc n xs v = elim (Bool-cases (leb (length xs) n)) [
    | inl few ↦ ap (λ ys. last n (ys ++ v ∷ [])) (last_all n xs (ground arith))
    | inr many ↦
        let k = length xs - n in
        let one : length (drop k xs ++ v ∷ []) - n ≡ 1 =
          ground (arith, length-append (drop k xs) (v ∷ []), length-drop k xs) in
        let all : length (xs ++ v ∷ []) - n ≡ suc k = ground (arith, length-append xs (v ∷ [])) in
        subst (λ i. drop i (drop k xs ++ v ∷ []) ≡ last n (xs ++ v ∷ [])) (sym one)
          (subst (λ i. drop 1 (drop k xs ++ v ∷ []) ≡ drop i (xs ++ v ∷ [])) (sym all)
            (ap (drop 1) (sym (drop-append k xs (v ∷ []) (omega arith)))
              ∙ drop-drop k (xs ++ v ∷ [])))
  ]

log_key-str_eq : (a b : String) → str_eq (log_key a) (log_key b) ≡ str_eq a b
unfolding log_key
log_key-str_eq a b = elim (Bool-cases (str_eq a b)) [
  | inl e ↦ (str_eq_iff (log_key a) (log_key b)).1 (ap log_key ((str_eq_iff a b).0 e)) ∙ sym e
  | inr e ↦ elim (Bool-cases (str_eq (log_key a) (log_key b))) [
    | inl f ↦
        let same : a ≡ b =
          append_cancel_left "logs:" a b ((str_eq_iff (log_key a) (log_key b)).0 f) in
        absurd (ground (arith, (str_eq_iff a b).1 same))
    | inr f ↦ f ∙ sym e
  ]
]

-- The lines of a job among those that arrive, printed.
abbrev pub printed : (ℤ → String) → String → List LogLine → List String
printed stamp id [] = []
printed stamp id (l ∷ ls) =
    let rest = printed stamp id ls in if str_eq l.job_id id then format_log stamp l ∷ rest else rest

module _ (redis : ListStore) (laws : IsListStore redis) (stamp : ℤ → String) where
  -- The lines, for a client that is there.
  push_lines : List LogLine → redis.State → redis.State
  push_lines [] s = s
  push_lines (l ∷ ls) s = push_lines ls (push_line redis stamp l s)

  stream_logs-some :
      (ls : List LogLine) (s : redis.State)
      → stream_logs redis stamp ls (some s) ≡ some (push_lines ls s)
  unfolding stream_logs cache_line push_lines
  stream_logs-some [] s = refl
  stream_logs-some (l ∷ ls) s = stream_logs-some ls (push_line redis stamp l s)

  push_line-entries :
      (l : LogLine) (s : redis.State) (key : String)
      → redis.entries (push_line redis stamp l s) key ≡ (
          if str_eq (log_key l.job_id) key
          then last 500 (redis.entries s key ++ format_log stamp l ∷ [])
          else redis.entries s key)
  unfolding push_line
  push_line-entries l s key = elim (Bool-cases (str_eq (log_key l.job_id) key)) [
    | inl e ↦ rw (laws.trimmed, e, laws.pushed, e) refl
    | inr e ↦ rw (laws.trimmed, e, laws.pushed, e) refl
  ]

  push_lines-entries :
      (id : String) (ls : List LogLine) (s : redis.State) (old : List String)
      → redis.entries s (log_key id) ≡ last 500 old
      → redis.entries (push_lines ls s) (log_key id) ≡ last 500 (old ++ printed stamp id ls)
  unfolding push_lines
  push_lines-entries id [] s old h = h ∙ ap (last 500) (sym (append-nil old))
  push_lines-entries id (l ∷ ls) s old h = elim (Bool-cases (str_eq l.job_id id)) [
    | inl e ↦
        let v = format_log stamp l in
        let hit : str_eq (log_key l.job_id) (log_key id) ≡ true = log_key-str_eq l.job_id id ∙ e in
        let step : redis.entries (push_line redis stamp l s) (log_key id)
            ≡ last 500 (old ++ v ∷ []) =
          push_line-entries l s (log_key id)
          ∙ subst
              (λ b.
                (if b
                  then last 500 (redis.entries s (log_key id) ++ v ∷ [])
                  else redis.entries s (log_key id))
                ≡ last 500 (redis.entries s (log_key id) ++ v ∷ []))
              (sym hit) refl
          ∙ ap (λ xs. last 500 (xs ++ v ∷ [])) h
          ∙ last-snoc 500 old v in
        rw e (
          push_lines-entries id ls (push_line redis stamp l s) (old ++ v ∷ []) step
          ∙ ap (last 500) (append_assoc old (v ∷ []) (printed stamp id ls)))
    | inr e ↦
        let miss : str_eq (log_key l.job_id) (log_key id) ≡ false =
          log_key-str_eq l.job_id id ∙ e in
        let step : redis.entries (push_line redis stamp l s) (log_key id)
            ≡ redis.entries s (log_key id) =
          push_line-entries l s (log_key id)
          ∙ subst
              (λ b.
                (if b
                  then last 500 (redis.entries s (log_key id) ++ format_log stamp l ∷ [])
                  else redis.entries s (log_key id))
                ≡ redis.entries s (log_key id))
              (sym miss) refl in
        rw e (push_lines-entries id ls (push_line redis stamp l s) old (step ∙ h))
  ]

  l_range-last :
      (s : redis.State) (key : String) (n : ℕ)
      → 1 ≤ n
      → redis.l_range s key n ≡ last n (redis.entries s key)
  l_range-last s key zero h = absurd (omega arith)
  l_range-last s key (suc n) h = laws.ranged s key n

  positive_count : (limit : ℤ) → 1 ≤ pos_part (if leb_ℤ limit (pos 0) then pos 200 else limit)
  positive_count limit = elim (Bool-cases (leb_ℤ limit (pos 0))) [
    | inl e ↦ rw e (omega arith)
    | inr e ↦ rw e (ground (arith, leb_ℤ→gt limit (pos 0) e))
  ]

  -- After any lines of any jobs have arrived, a reader of a job whose log was empty gets the last of
  -- that job's lines, in order and printed: as many as asked for (200 where no positive number is
  -- asked for), and never more than the last 500; for a Redis whose list commands do what is
  -- documented.
  pub fetch_logs-stream_logs :
      (id : String) (limit : ℤ) (ls : List LogLine) (s : redis.State)
      → redis.entries s (log_key id) ≡ []
      → fetch_logs redis stamp (stream_logs redis stamp ls (some s)) id limit
        ≡ last
            (pos_part (if leb_ℤ limit (pos 0) then pos 200 else limit))
            (last 500 (printed stamp id ls))
  unfolding fetch_logs
  fetch_logs-stream_logs id limit ls s empty =
      let count = pos_part (if leb_ℤ limit (pos 0) then pos 200 else limit) in
      rw (stream_logs-some ls s) (
        l_range-last (push_lines ls s) (log_key id) count (positive_count limit)
        ∙ ap (last count) (push_lines-entries id ls s [] empty))
