-- ===== src/Bus/Consumes.antt =====
-- The loop of a consumer under redelivery, and a bus that could not connect.
use dhf.Base.{
  ℕ, zero, suc, ◌≡◌, ◌≤◌, ◌<◌, ◌++◌, refl, ap, inl, inr, Option, none, some, Bool, true, false,
  List, [], ◌∷◌, Text, length, replicate, arith, Bool-cases,
}
use dhf.Bus.{Settled, acked, naked, Link, get_bus, connect, publish, settle, consume}

module _ {ℓ} {E S : Type ℓ} (decode : Text → Option E) (handler : E → S → Bool × S) where
  -- There is one answer for each delivery.
  length-consume :
      (messages : List Text) (s : S)
      → length (consume decode handler messages s).0 ≡ length messages
  unfolding consume
  length-consume [] s = refl
  length-consume (m ∷ rest) s = ap suc (length-consume rest (settle decode handler m s).1)

  module _ (bad : S → ℕ) (e : E) (m : Text) where
    -- The state of the handler after so many deliveries.
    abbrev pub handled : ℕ → S → S
    handled zero s = s
    handled (suc tries) s = handled tries (handler e s).1

    -- Where the handler of an event can fail only so often, because each failure makes a measure of its
    -- state smaller, and the event is delivered more often than that measure: it is answered with as
    -- many refusals as the handler fails, no more than the measure, and then with an acknowledgement, at
    -- a delivery in which the handler did not fail.
    pub consume-acked :
        (s : S) (deliveries : ℕ)
        → decode m ≡ some e
        → ((t : S) → (handler e t).0 ≡ false → bad (handler e t).1 < bad t)
        → bad s < deliveries
        → (tries : ℕ) × (rest : List Settled) × (tries ≤ bad s)
          × ((handler e (handled tries s)).0 ≡ true)
          × ((consume decode handler (replicate deliveries m) s).0
              ≡ replicate tries naked ++ acked ∷ rest)
    unfolding consume settle
    consume-acked s zero known fails h = absurd (omega arith)
    consume-acked s (suc more) known fails h = elim (Bool-cases (handler e s).0) [
      | inl f ↦ (
        0,
        (consume decode handler (replicate more m) (handler e s).1).0,
        omega arith,
        f,
        rw (consume, settle, known, f) refl,
      )
      | inr f ↦
          let less = fails s f in
          let (tries, rest, bound, fine, answers) =
            consume-acked (handler e s).1 more known fails (omega (arith, less)) in
          (
            suc tries,
            rest,
            omega (arith, less, bound),
            fine,
            rw (consume, settle, known, f, answers) refl,
          )
    ]

-- A process whose first `getBus` does not reach NATS gets an exception, and from then on, though NATS
-- is reached, a bus without a connection, on which every `publish` throws.
get_bus-unconnected {ℓ} :
    {E : Type ℓ} (first later : Option Text) (type : Text) (e : E) (stream : List (Text × E))
    → ((get_bus false first none).0 ≡ none)
      × ((get_bus true later (get_bus false first none).1).0 ≡ some Link.unconnected)
      × (publish Link.unconnected type e stream ≡ (false, stream))
unfolding get_bus connect publish
get_bus-unconnected first later type e stream = (refl, refl, refl)
