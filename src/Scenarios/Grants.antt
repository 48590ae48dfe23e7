-- ===== src/Scenarios/Grants.antt =====
-- Grants of the faucet and the totals of the gateway.
use dhf.Base.{ℕ, ◌≡◌, ◌+◌, ◌*◌, ◌-◌, refl, text_eq, text_ne, arith, map, length, List, [], ◌∷◌}
use dhf.Registry.{Tokens, Db, ok, amount, alive_of, find_stack, Stack}
use dhf.Registry.Laws.{Unique}
use dhf.Siyana.{balances, sum_tokens, no_tokens}
use dhf.Faucet.{Last, last_set, last_get, drip, dripped, rate_limited}
use dhf.Faucet.Grants.{announced, grant_row, drip-drip, balances-drip}
use dhf.Treasury.{TokenBalance, effective_balance, Emitted, on_epoch_transition}
use dhf.Treasury.Emission.{
  at_epoch, entry, effective_balance-bounds, on_epoch_transition-redelivered,
}
use dhf.Base.{◌≤◌, ◌++◌, some, Bool, true, false}
use dhf.Scenarios.{ada, db}

distinct : Unique db.sleeves
unfolding text_eq
distinct = ((text_ne refl, (text_ne refl, tt)), ((text_ne refl, tt), (tt, tt)))

abbrev after : Last × Db
after = (last_set ada.id 100000 [], record db { sleeves = map (grant_row ada.id) db.sleeves })

drip-drip_example :
    (drip 60000 ada.id 100000 ([], db) ≡ (
      dripped (record {
        granted_tokens = announced;
        sleeve_count = length (alive_of ada.id db.sleeves);
      }),
      after,
    ))
    × (drip 60000 ada.id 130000 after ≡ (rate_limited ((100000 + 60000) - 130000), after))
unfolding last_get alive_of text_eq
drip-drip_example =
    drip-drip 60000 ada.id 100000 130000 [] db distinct (omega arith) refl (omega arith)

abbrev totals : Tokens
totals = sum_tokens no_tokens (alive_of ada.id db.sleeves)

reported : balances ada.id db ≡ ok (ada.id, totals)
unfolding balances find_stack text_eq
reported = refl

balances-drip_example :
    (next : Tokens) × (balances ada.id (drip 60000 ada.id 100000 ([], db)).1.1 ≡ ok (ada.id, next))
    × (amount next.compute ≡ amount totals.compute + 200 * length (alive_of ada.id db.sleeves))
    × (amount next.memory ≡ amount totals.memory + 200 * length (alive_of ada.id db.sleeves))
    × (amount next.sync ≡ amount totals.sync + 100 * length (alive_of ada.id db.sleeves))
    × (amount next.routing ≡ amount totals.routing + 100 * length (alive_of ada.id db.sleeves))
    × (amount next.residue ≡ amount totals.residue)
unfolding last_get alive_of text_eq
balances-drip_example = balances-drip 60000 ada.id 100000 [] db distinct (omega arith) refl reported

abbrev raw : TokenBalance
raw = record { compute = 100; memory = 100; sync = 100; routing = 100; residue = 7 }

-- A curve that falls from one to nothing, for the exponential.
abbrev falling : ℕ → ℕ
falling x = 1000000 - x

effective_balance-bounds_example :
    (raw.compute * ada.cpv.compute_coeff * 250000
      ≤ (effective_balance falling raw ada.cpv ada.binding 2).compute)
    × ((effective_balance falling raw ada.cpv ada.binding 2).compute
        ≤ raw.compute * ada.cpv.compute_coeff * 1000000)
    × ((effective_balance falling raw ada.cpv ada.binding 9).compute
        ≤ (effective_balance falling raw ada.cpv ada.binding 2).compute)
    × ((effective_balance falling raw ada.cpv ada.binding 2).residue
        ≡ raw.residue * ada.cpv.residue_coeff * 1000000)
    × ((effective_balance falling raw ada.cpv ada.binding 9).residue
        ≡ raw.residue * ada.cpv.residue_coeff * 1000000)
effective_balance-bounds_example =
    effective_balance-bounds falling raw ada.cpv ada.binding 2 9 (λ x. omega arith)
      (λ x y h. omega arith) (omega arith) (omega arith)

-- The log loses the first entry; the second delivery is taken whole.
abbrev once : Bool × (List Emitted × List Stack)
once = on_epoch_transition falling 100 4 (some (λ k. (false, true))) ([], ada ∷ [])

on_epoch_transition-redelivered_example :
    (once ≡ (true, ([], at_epoch 4 ada ∷ [])))
    × (on_epoch_transition falling 100 4 (some (λ k. (true, true))) once.1
        ≡ (true, (once.1.0 ++ entry falling 100 4 (λ s. 1) ada ∷ [], at_epoch 4 ada ∷ [])))
on_epoch_transition-redelivered_example =
    on_epoch_transition-redelivered falling 100 4 (λ k. false) (λ k. (true, true)) [] (ada ∷ [])
