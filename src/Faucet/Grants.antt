-- ===== src/Faucet/Grants.antt =====
-- What a grant does to the sleeves, and how often it is given.
use dhf.Base.{
  ℕ, ◌≡◌, ◌≢◌, ◌≤◌, ◌<◌, ◌+◌, ◌*◌, ◌-◌, refl, none, some, false, ◌&&◌, List, [], ◌∷◌, map, Text,
  text_eq, text_eq_iff, if◌then◌else◌, length, is_empty, or_else, arith, All, Bool-cases,
  Option-cases, inl, inr,
}
use dhf.Registry.{
  Tokens, ok, find_stack, Sleeve, Db, amount, alive_of, find_sleeve, change_sleeve, update_sleeve,
}
use dhf.Registry.Laws.{Unique, find_stack-id, alive_of-All}
use dhf.Siyana.{balances, no_tokens, sum_tokens, add_tokens}
use dhf.Faucet.{Last, last_get, last_set, granted, grant_all, drip, dripped, rate_limited}

-- the row with the grant
abbrev topped : Sleeve → Sleeve → Sleeve
topped s row = record row { tokens = granted s.tokens }

-- a row, after a grant to the stack, in halves of tokens
unfoldable pub grant_row : Text → Sleeve → Sleeve
grant_row k s =
    if s.alive && text_eq s.stack_id k
    then record s {
      tokens = record {
        compute = some (amount s.tokens.compute + 200);
        memory = some (amount s.tokens.memory + 200);
        sync = some (amount s.tokens.sync + 100);
        routing = some (amount s.tokens.routing + 100);
        residue = some (amount s.tokens.residue);
      };
    }
    else s

-- what the answer says was granted, in halves of tokens
abbrev pub announced : Tokens
announced = record {
  compute = some 200;
  memory = some 200;
  sync = some 100;
  routing = some 100;
  residue = none;
}

-- A row that none of the sleeves in hand names stays in front as it is.
grant_all-skip :
    (s : Sleeve) (todo : List Sleeve) (l : List Sleeve) (db : Db) {l' : List Sleeve}
    → All (λ t. t.id ≢ s.id) todo
    → grant_all todo (record db { sleeves = l }) ≡ some (record db { sleeves = l' })
    → grant_all todo (record db { sleeves = s ∷ l }) ≡ some (record db { sleeves = s ∷ l' })
unfolding grant_all update_sleeve find_sleeve change_sleeve
grant_all-skip s [] l db {l'} h e = ground arith
grant_all-skip s (t ∷ todo) l db {l'} (ne, h) e = elim (Option-cases (find_sleeve t.id l)) [
  | inl absent ↦ absurd (ground (arith, absent, e))
  | inr (row, found) ↦ ground (
    arith,
    text_eq_iff s.id t.id,
    found,
    e,
    ne,
    grant_all-skip s todo (change_sleeve t.id (topped t) l) db {l' = l'} h,
  )
]

update_sleeve-head :
    (s : Sleeve) (f : Sleeve → Sleeve) (l : List Sleeve) (db : Db)
    → update_sleeve s.id f (record db { sleeves = s ∷ l }) ≡ some (record db { sleeves = f s ∷ l })
unfolding update_sleeve find_sleeve change_sleeve
update_sleeve-head s f l db = ground (arith, text_eq_iff s.id s.id)

-- The loop tops up every live sleeve of the stack once, and no other row.
grant_all-grant_row :
    (k : Text) (l : List Sleeve) (db : Db)
    → Unique l
    → grant_all (alive_of k l) (record db { sleeves = l })
      ≡ some (record db { sleeves = map (grant_row k) l })
unfolding alive_of grant_row grant_all granted
grant_all-grant_row k [] db u = refl
grant_all-grant_row k (s ∷ l) db (fresh, u) =
    let rest = grant_all-grant_row k l db u in
    let later = alive_of-All (λ t. t.id ≢ s.id) k l fresh in
    elim (Bool-cases (s.alive && text_eq s.stack_id k)) [
      | inr not_his ↦ ground (
        arith,
        not_his,
        rest,
        grant_all-skip s (alive_of k l) l db {l' = map (grant_row k) l} later,
      )
      | inl his ↦ ground (
        arith,
        his,
        rest,
        update_sleeve-head s (topped s) l db,
        grant_all-skip (topped s s) (alive_of k l) l db {l' = map (grant_row k) l} later,
      )
    ]

last_get-last_set : (k : Text) (now : ℕ) (last : Last) → last_get k (last_set k now last) ≡ some now
unfolding last_get last_set
last_get-last_set k now [] = ground (arith, text_eq_iff k k)
last_get-last_set k now ((j, t) ∷ rest) =
    ground (arith, text_eq_iff j k, last_get-last_set k now rest)

cons_of :
    (l : List Sleeve) → is_empty l ≡ false → (s : Sleeve) × (more : List Sleeve) × (l ≡ s ∷ more)
cons_of [] e = absurd (ground (arith, e))
cons_of (s ∷ more) e = (s, more, refl)

drip_lem :
    (rate_ms : ℕ) (k : Text) (now : ℕ) (last : Last) (db : Db)
    → Unique db.sleeves
    → or_else (last_get k last) 0 + rate_ms ≤ now
    → is_empty (alive_of k db.sleeves) ≡ false
    → drip rate_ms k now (last, db) ≡ (
      dripped
          (record { granted_tokens = announced; sleeve_count = length (alive_of k db.sleeves) }),
      (last_set k now last, record db { sleeves = map (grant_row k) db.sleeves }),
    )
unfolding drip
drip_lem rate_ms k now last db u over some_alive =
    let (s, more, e) = cons_of (alive_of k db.sleeves) some_alive in
    let given = grant_all-grant_row k db.sleeves db u in ground (arith, e, given)

-- With distinct identifiers, and when the period since the stack's last grant is over, a drip to a
-- stack with a live sleeve gives each of its live sleeves 100 compute, 100 memory, 50 sync and 50
-- routing tokens, leaves every other row as it was, and notes the time; a second drip to that stack before the
-- period has passed is refused, with the time to wait, and changes nothing.
pub drip-drip :
    (rate_ms : ℕ) (k : Text) (now later : ℕ) (last : Last) (db : Db)
    → Unique db.sleeves
    → or_else (last_get k last) 0 + rate_ms ≤ now
    → is_empty (alive_of k db.sleeves) ≡ false
    → later < now + rate_ms
    → let after : Last × Db =
        (last_set k now last, record db { sleeves = map (grant_row k) db.sleeves }) in
      (drip rate_ms k now (last, db) ≡ (
        dripped
            (record { granted_tokens = announced; sleeve_count = length (alive_of k db.sleeves) }),
        after,
      ))
      × (drip rate_ms k later after ≡ (rate_limited ((now + rate_ms) - later), after))
unfolding drip
drip-drip rate_ms k now later last db u over some_alive soon =
    (drip_lem rate_ms k now last db u over some_alive, ground (arith, last_get-last_set k now last))

-- The sleeves' totals, as the gateway adds them up, after a grant to the stack: each kind has grown by
-- its grant for each live sleeve.
sums-grant_row :
    (k : Text) (l : List Sleeve) (a b : Tokens) (c : ℕ)
    → amount b.compute ≡ amount a.compute + 200 * c
    → amount b.memory ≡ amount a.memory + 200 * c
    → amount b.sync ≡ amount a.sync + 100 * c
    → amount b.routing ≡ amount a.routing + 100 * c
    → amount b.residue ≡ amount a.residue
    → let after = sum_tokens b (alive_of k (map (grant_row k) l)) in
      let before = sum_tokens a (alive_of k l) in
      (amount after.compute ≡ amount before.compute + 200 * (c + length (alive_of k l)))
      × (amount after.memory ≡ amount before.memory + 200 * (c + length (alive_of k l)))
      × (amount after.sync ≡ amount before.sync + 100 * (c + length (alive_of k l)))
      × (amount after.routing ≡ amount before.routing + 100 * (c + length (alive_of k l)))
      × (amount after.residue ≡ amount before.residue)
unfolding alive_of grant_row granted sum_tokens add_tokens
sums-grant_row k [] a b c e1 e2 e3 e4 e5 = ground arith
sums-grant_row k (s ∷ l) a b c e1 e2 e3 e4 e5 =
    elim (Bool-cases (s.alive && text_eq s.stack_id k)) [
      | inr not_his ↦ ground (arith, not_his, sums-grant_row k l a b c e1 e2 e3 e4 e5)
      | inl his ↦ ground (
        arith,
        his,
        sums-grant_row k l (add_tokens a s.tokens) (add_tokens b (granted s.tokens)) (c + 1)
            (omega arith) (omega arith) (omega arith) (omega arith) (omega arith),
      )
    ]

-- When the period since the stack's last grant is over, a drip to a stack of the registry raises each
-- total that the gateway reports for it by the grant times the number of the stack's live sleeves;
-- the residue stays.
pub balances-drip :
    (rate_ms : ℕ) (k : Text) (now : ℕ) (last : Last) (db : Db) {before : Tokens}
    → Unique db.sleeves
    → or_else (last_get k last) 0 + rate_ms ≤ now
    → is_empty (alive_of k db.sleeves) ≡ false
    → balances k db ≡ ok (k, before)
    → let c = length (alive_of k db.sleeves) in
      (after : Tokens) × (balances k (drip rate_ms k now (last, db)).1.1 ≡ ok (k, after))
      × (amount after.compute ≡ amount before.compute + 200 * c)
      × (amount after.memory ≡ amount before.memory + 200 * c)
      × (amount after.sync ≡ amount before.sync + 100 * c)
      × (amount after.routing ≡ amount before.routing + 100 * c)
      × (amount after.residue ≡ amount before.residue)
unfolding balances
balances-drip rate_ms k now last db {before} u over some_alive e =
    elim (Option-cases (find_stack k db.stacks)) [
      | inl absent ↦ absurd (ground (arith, absent, e))
      | inr (stack, found) ↦
          let ek = find_stack-id k db.stacks found in
          let same : before ≡ sum_tokens no_tokens (alive_of k db.sleeves) =
            ground (arith, found, e, ek) in
          let given = drip_lem rate_ms k now last db u over some_alive in
          let grown = sums-grant_row k db.sleeves no_tokens no_tokens 0 refl refl refl refl refl in
          let (g1, g2, g3, g4, g5) = grown in
          (
            sum_tokens no_tokens (alive_of k (map (grant_row k) db.sleeves)),
            ground (arith, given, found, ek),
            ground (arith, same, g1),
            ground (arith, same, g2),
            ground (arith, same, g3),
            ground (arith, same, g4),
            ground (arith, same, g5),
          )
    ]
