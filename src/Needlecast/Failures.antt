-- ===== src/Needlecast/Failures.antt =====
-- What a transfer leaves behind when one of its steps throws.
use dhf.Base.{◌≡◌, refl, some, true, false, Text, text_eq, sym, ap, ap₂, ◌∙◌, ◌++◌, ◌∷◌, []}
use dhf.Crypto.Primitives.{Noble}
use dhf.Chain.Hippocampus.{Node}
use dhf.Registry.{Event, Stack, Sleeve, World, find_stack, find_sleeve, change_sleeve, is_ok}
use dhf.Registry.Laws.{find_sleeve-change_self, find_sleeve-change_other}
use dhf.Needlecast.{Calls, set_alive, reset, failed, roll_back, saga, needlecast}
use dhf.Needlecast.Rows.{
  Route, write_up, after_write, frozen, reset_rows, ok-refused, found-Route, ok-calls, ok-shards,
  started,
}

rolled_back :
    (source s : Sleeve) (w : World)
    → find_sleeve source.id w.sleeves ≡ some s
    → roll_back true source w ≡ after_write source.id (set_alive true) w
unfolding roll_back
rolled_back source s w e = rw (roll_back, write_up true source.id (set_alive true) w refl e) refl

module _ (n : Noble) (node : Node) where
  unsettled :
      (calls : Calls) (w : World) (r : Route w)
      → is_ok (saga n node calls r.source r.target r.stack w).0 ≡ true
      → calls.undo ≡ true
      → let (reply, w') =
          saga n node (record calls { settle = false }) r.source r.target r.stack w in
        (reply ≡ failed)
        × (w'.sleeves
            ≡ change_sleeve r.source.id (set_alive true) (
                change_sleeve r.target.id
                  (reset r.stack r.target)
                  (change_sleeve r.source.id (set_alive false) w.sleeves)))
  unfolding saga
  unsettled calls w r e u =
      let (c1, c2, c3, c4, c5) = ok-calls n node calls r.source r.target r.stack w e in
      let (t1, f3, t3) = reset_rows w r in
      let w1 = frozen r.source.id w in
      let e1 = write_up calls.freeze r.source.id (set_alive false) w c1 r.source_row in
      let (shards, es) = ok-shards n node calls w r e in
      let w2 : World = record w1 {
        events = w1.events ++ Event.needlecast_route r.source.id r.target.id r.stack.id shards ∷ [];
      } in
      let w3 = after_write r.target.id (reset r.stack r.target) w2 in
      let e3 = write_up calls.reconstruct r.target.id (reset r.stack r.target) w2 c3 t1 in
      let back = rolled_back r.source (set_alive false r.source) w3 f3 in
      rw (saga, e1, es, c2, e3, u, back) (refl, refl)

  unpublished :
      (calls : Calls) (w : World) (r : Route w)
      → is_ok (saga n node calls r.source r.target r.stack w).0 ≡ true
      → calls.undo ≡ true
      → let (reply, w') =
          saga n node (record calls { publish = false }) r.source r.target r.stack w in
        (reply ≡ failed)
        × (w'.sleeves
            ≡ change_sleeve r.source.id
                (set_alive true)
                (change_sleeve r.source.id (set_alive false) w.sleeves))
  unfolding saga
  unpublished calls w r e u =
      let (c1, c2, c3, c4, c5) = ok-calls n node calls r.source r.target r.stack w e in
      let w1 = frozen r.source.id w in
      let e1 = write_up calls.freeze r.source.id (set_alive false) w c1 r.source_row in
      let (shards, es) = ok-shards n node calls w r e in
      let f1 = find_sleeve-change_self r.source.id (set_alive false) w.sleeves r.source_row refl in
      let back = rolled_back r.source (set_alive false r.source) w1 f1 in
      rw (saga, e1, es, u, back) (refl, refl)

  -- A transfer that would have gone through, but for the event that the bus does not take, and whose
  -- undo step succeeds: it is answered with a 500, the source's row is as it was save that it is
  -- alive, even if it was not, and the row of any other sleeve is as it was.
  pub needlecast-rolls_back :
      (calls : Calls) (from to other : Text) (w : World)
      → text_eq from to ≡ false
      → text_eq from other ≡ false
      → calls.undo ≡ true
      → is_ok (needlecast n node calls from to w).0 ≡ true
      → let (reply, w') = needlecast n node (record calls { publish = false }) from to w in
        (reply ≡ failed)
        × (source : Sleeve) × (find_sleeve from w.sleeves ≡ some source)
        × (find_sleeve from w'.sleeves ≡ some (set_alive true source))
        × (find_sleeve other w'.sleeves ≡ find_sleeve other w.sleeves)
  needlecast-rolls_back calls from to other w apart nf undone h =
      let (r, ef, et) = found-Route n node calls from to w apart (ok-refused _ h) in
      let run = started n node calls from to w r ef et in
      let run' = started n node (record calls { publish = false }) from to w r ef et in
      let (e0, e1) = unpublished calls w r (ap (λ x. is_ok x.0) (sym run) ∙ h) undone in
      let f1 = find_sleeve-change_self r.source.id (set_alive false) w.sleeves r.source_row refl in
      let f2 = find_sleeve-change_self r.source.id (set_alive true) _ f1 refl in
      let ns = ap (λ i. text_eq i other) ef ∙ nf in
      (
        ap (λ x. x.0) run' ∙ e0,
        r.source,
        ap (λ i. find_sleeve i w.sleeves) (sym ef) ∙ r.source_row,
        ap₂ (λ i x. find_sleeve i x.1.sleeves) (sym ef) run' ∙ ap (find_sleeve r.source.id) e1 ∙ f2,
        ap (λ x. find_sleeve other x.1.sleeves) run'
            ∙ ap (find_sleeve other) e1
            ∙ find_sleeve-change_other r.source.id other (set_alive true) _ ns (λ s e. e)
            ∙ find_sleeve-change_other r.source.id other (set_alive false) _ ns (λ s e. e),
      )

  -- A transfer between two sleeves that would have gone through, but for the write of the payment,
  -- and whose undo step succeeds: it is answered with the same 500, and the source is alive and has
  -- paid nothing, but the target has been reset and is not restored.
  pub needlecast-half_done :
      (calls : Calls) (from to : Text) (w : World)
      → text_eq from to ≡ false
      → calls.undo ≡ true
      → is_ok (needlecast n node calls from to w).0 ≡ true
      → let (reply, w') = needlecast n node (record calls { settle = false }) from to w in
        (reply ≡ failed)
        × (source : Sleeve) × (target : Sleeve) × (stack : Stack) × (find_sleeve from w.sleeves
            ≡ some source)
        × (find_sleeve to w.sleeves ≡ some target)
        × (find_stack source.stack_id w.stacks ≡ some stack)
        × (find_sleeve from w'.sleeves ≡ some (set_alive true source))
        × (find_sleeve to w'.sleeves ≡ some (reset stack target target))
  needlecast-half_done calls from to w apart undone h =
      let (r, ef, et) = found-Route n node calls from to w apart (ok-refused _ h) in
      let run = started n node calls from to w r ef et in
      let run' = started n node (record calls { settle = false }) from to w r ef et in
      let (e0, e1) = unsettled calls w r (ap (λ x. is_ok x.0) (sym run) ∙ h) undone in
      let (t1, f3, t3) = reset_rows w r in
      let f4 = find_sleeve-change_self r.source.id (set_alive true) _ f3 refl in
      let t4 =
        find_sleeve-change_other r.source.id r.target.id (set_alive true) _ r.apart (λ s e. e)
        ∙ t3 in
      (
        ap (λ x. x.0) run' ∙ e0,
        r.source,
        r.target,
        r.stack,
        ap (λ i. find_sleeve i w.sleeves) (sym ef) ∙ r.source_row,
        ap (λ i. find_sleeve i w.sleeves) (sym et) ∙ r.target_row,
        r.stack_row,
        ap₂ (λ i x. find_sleeve i x.1.sleeves) (sym ef) run' ∙ ap (find_sleeve r.source.id) e1 ∙ f4,
        ap₂ (λ i x. find_sleeve i x.1.sleeves) (sym et) run' ∙ ap (find_sleeve r.target.id) e1 ∙ t4,
      )
