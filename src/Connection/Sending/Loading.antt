-- ===== src/Connection/Sending/Loading.antt =====
-- The loop of `loadAndSendPacket` over the streams: it returns, and what it then has loaded.
use ilp_protocol_stream.Base.{
  ℕ, ◌+◌, ◌-◌, ◌^◌, ◌≤◌, ◌<◌, ◌≡◌, refl, ap, ◌∙◌, subst, inl, inr, ltb, ◌==◌, ltb→ge, if◌then◌else◌,
  Bool-cases, List, [], ◌∷◌, some, Bool, true, false, Result, ok, ◌>>=◌, arith,
}
use ilp_protocol_stream.Long.Interface.{LongApi}
use ilp_protocol_stream.Rational.{Rational}
use ilp_protocol_stream.Stream.{Stream}
use ilp_protocol_stream.Stream.Money.{get_amount_available_to_send, hold_outgoing, cancel_hold}
use ilp_protocol_stream.Packet.{Frame}
use ilp_protocol_stream.Connection.Shares.{money_frames}
use ilp_protocol_stream.Connection.Rejects.Undoing.{undone}
use ilp_protocol_stream.Connection.Sending.{
  Turn, Loaded, nothing_loaded, put_before, skip_before, amount_to_send_from_stream, blocked_frames,
  hold_for, take_from_stream, total_after, left_after, load_streams,
}
use ilp_protocol_stream.Connection.Sending.Amounts.{
  Ready, AllReady, Held, stops, passes, takes, Idle, Loads, amount_total, blocked_total,
}

pick_true : {A : Type 0} (b : Bool) (x y : A) → b ≡ true → (elim b [ true ↦ x | false ↦ y ]) ≡ x
pick_true b x y e = rw e

pick_false : {A : Type 0} (b : Bool) (x y : A) → b ≡ false → (elim b [ true ↦ x | false ↦ y ]) ≡ y
pick_false b x y e = rw e

module _ ⦃api : LongApi⦄ where
  nothing-Loads :
      (cap sequence amount maximum : ℕ) (streams : List (ℕ × Stream))
      → Loads cap sequence amount maximum streams (nothing_loaded amount maximum streams)
  unfolding money_frames undone
  nothing-Loads cap sequence amount maximum streams = record {
    held = stops streams;
    amounts = omega arith;
    rest = refl;
    senders = refl;
    undo = λ k t. refl;
  }

  skip-Loads :
      (cap sequence amount maximum k : ℕ) (s : Stream) (rest : List (ℕ × Stream)) (l : Loaded)
      → Loads cap sequence amount maximum rest l
      → Loads cap sequence amount maximum ((k, s) ∷ rest) (skip_before k s l)
  skip-Loads cap sequence amount maximum k s rest l w = record {
    held = passes k s w.held;
    amounts = w.amounts;
    rest = w.rest;
    senders = w.senders;
    undo = w.undo;
  }

  put-Loads :
      (cap sequence amount maximum k a : ℕ) (s : Stream) (blocked : List Frame)
      (rest : List (ℕ × Stream)) (l : Loaded)
      → Ready cap sequence k s
      → Idle blocked
      → a ≤ get_amount_available_to_send s
      → a ≤ maximum
      → Loads cap sequence (amount + a) (maximum - a) rest l
      → Loads cap sequence amount maximum
          ((k, s) ∷ rest)
          (put_before k (hold_for sequence a blocked s) l)
  unfolding hold_for money_frames undone
  put-Loads cap sequence amount maximum k a s blocked rest l r idle available fits w =
      elim (Bool-cases (ltb 0 a)) [
        | inl pos ↦ rw pos (record {
          held = rw (idle.money l.frames) (
              subst
                (λ i.
                  Held cap sequence ((k, s) ∷ rest)
                    ((k, (hold_outgoing s sequence (some a)).0) ∷ l.streams)
                    ((i, a) ∷ money_frames l.frames))
                r.same_key (takes k s a r available w.held));
          amounts = rw (idle.money l.frames) (omega (arith, w.amounts));
          rest = omega (arith, w.rest, fits);
          senders = rw (idle.money l.frames, w.senders) refl;
          undo = λ k' t.
              idle.undo k' sequence l.frames _
              ∙ w.undo k' (if s.id == k' then cancel_hold t sequence else t);
        })
        | inr unsent ↦
            let zero_sent : a ≡ 0 = omega (arith, ltb→ge 0 a unsent) in
            rw unsent (record {
              held = rw (idle.money l.frames) (passes k s w.held);
              amounts = rw (idle.money l.frames) (omega (arith, w.amounts, zero_sent));
              rest = omega (arith, w.rest, zero_sent);
              senders = rw (idle.money l.frames) w.senders;
              undo = λ k' t. idle.undo k' sequence l.frames t ∙ w.undo k' t;
            })
      ]

  -- The loop's variables after a round, as numbers.
  advance :
      (amount maximum a : ℕ)
      → a ≤ maximum
      → amount + maximum < 2 ^ 64
      → (total_after amount a ≡ amount + a) × (left_after maximum a ≡ maximum - a)
  unfolding total_after left_after
  advance amount maximum a fits small =
      ground (arith, api.add_wraps amount a, api.subtract_wraps maximum a)

  hold_for-amount :
      (sequence a : ℕ) (blocked : List Frame) (s : Stream)
      → (hold_for sequence a blocked s).amount ≡ a
  unfolding hold_for
  hold_for-amount sequence a blocked s = elim (Bool-cases (ltb 0 a)) [ inl e ↦ rw e | inr e ↦ rw e ]

  abbrev next_rounds : ℕ → Rational → ℕ → List (ℕ × Stream) → Turn → ℕ → ℕ → Result Loaded
  next_rounds sequence rate k rest t sum left = do
    l ← elim (left == 0) [
      | true ↦ ok (nothing_loaded sum left rest)
      | false ↦ load_streams sequence rate sum left rest
    ]
    ok (put_before k t l)

  -- A round of the loop, by what it takes and by the variables behind it.
  load_streams-round :
      (sequence : ℕ) (rate : Rational) (amount maximum k : ℕ) (s : Stream)
      (rest : List (ℕ × Stream)) (t : Turn) (sum left : ℕ)
      → s.sent_end ≡ false
      → take_from_stream sequence rate maximum s ≡ ok t
      → total_after amount t.amount ≡ sum
      → left_after maximum t.amount ≡ left
      → load_streams sequence rate amount maximum ((k, s) ∷ rest)
        ≡ next_rounds sequence rate k rest t sum left
  unfolding load_streams
  load_streams-round sequence rate amount maximum k s rest t sum left going taken up down =
      let whole = load_streams sequence rate amount maximum ((k, s) ∷ rest) in
      subst (λ v. whole ≡ next_rounds sequence rate k rest t sum v) down
        (subst (λ u. whole ≡ next_rounds sequence rate k rest t u (left_after maximum t.amount)) up
          (pick_false s.sent_end _ _ going ∙ rw taken))

  take_from_stream-eq-ok :
      (sequence : ℕ) (rate : Rational) (maximum a : ℕ) (blocked : List Frame) (s : Stream)
      → amount_to_send_from_stream rate maximum s ≡ ok a
      → blocked_frames rate a s ≡ ok blocked
      → take_from_stream sequence rate maximum s ≡ ok (hold_for sequence a blocked s)
  unfolding take_from_stream
  take_from_stream-eq-ok sequence rate maximum a blocked s ea eb = rw (ea, eb)

  pub load_streams-Loads :
      (cap sequence : ℕ) (rate : Rational) (amount maximum : ℕ) (streams : List (ℕ × Stream))
      → 0 < rate.a
      → 0 < rate.b
      → amount + maximum < 2 ^ 64
      → AllReady cap sequence streams
      → (l : Loaded) × (load_streams sequence rate amount maximum streams ≡ ok l)
        × Loads cap sequence amount maximum streams l
  unfolding load_streams
  load_streams-Loads cap sequence rate amount maximum [] over under small ready =
      (nothing_loaded amount maximum [], refl, nothing-Loads cap sequence amount maximum [])
  load_streams-Loads cap sequence rate amount maximum ((k, s) ∷ rest) over under small (r, ready) =
      elim (Bool-cases s.sent_end) [
        | inl ended ↦
            let (l, e, w) =
              load_streams-Loads cap sequence rate amount maximum rest over under small ready in
            (
              skip_before k s l,
              pick_true s.sent_end _ _ ended ∙ rw e,
              skip-Loads cap sequence amount maximum k s rest l w,
            )
        | inr going ↦
            let (a, ea, available, fits) = amount_total cap sequence k rate maximum s over r in
            let (blocked, eb, idle) = blocked_total rate a s under in
            let (up, down) = advance amount maximum a fits small in
            let t = hold_for sequence a blocked s in
            let same = hold_for-amount sequence a blocked s in
            let first =
              load_streams-round sequence rate amount maximum k s rest t (amount + a) (maximum - a)
                going (take_from_stream-eq-ok sequence rate maximum a blocked s ea eb)
                (ap (total_after amount) same ∙ up) (ap (left_after maximum) same ∙ down) in
            elim (Bool-cases (maximum - a == 0)) [
              | inl full ↦
                  let l = nothing_loaded (amount + a) (maximum - a) rest in
                  (
                    put_before k (hold_for sequence a blocked s) l,
                    first ∙ rw full,
                    put-Loads cap sequence amount maximum k a s blocked rest l r idle available fits
                        (nothing-Loads cap sequence (amount + a) (maximum - a) rest),
                  )
              | inr space ↦
                  let (l, e, w) =
                    load_streams-Loads cap sequence rate (amount + a) (maximum - a) rest over under
                      (omega (arith, fits)) ready in
                  (
                    put_before k (hold_for sequence a blocked s) l,
                    first ∙ rw (space, e),
                    put-Loads cap sequence amount maximum k a s blocked rest l r idle available fits
                        w,
                  )
            ]
      ]
