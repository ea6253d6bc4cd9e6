-- ===== src/Server/System/Counted.antt =====
-- The node control behind a message of a device that was awaited.
use esp32_fl.Base.{
  ℕ, ◌+◌, String, ◌≡◌, [], sym, ap, ◌∙◌, length, length-map, ◌≢◌, ◌≤◌, ◌<◌, ◌⊎◌, inl, inr, true,
  false, List, All, arith, Bool-cases, int_mod, any,
}
use esp32_fl.Server.{ClientNode, NodeControl}
use esp32_fl.Server.Registry.Valid.{Distinct}
use esp32_fl.Server.Registry.Steady.{IsSteady, IsAwaited}
use esp32_fl.Server.Aggregation.{is_pending}
use esp32_fl.Server.Aggregation.Pending.{
  pending, mem, remove, pending-any, count_interaction-Counted,
}
use esp32_fl.Server.Aggregation.Effect.{Counts}
use esp32_fl.Server.Aggregation.Level.{
  IsLevel, count_interaction-IsLevel, IsLevel-next, IsLevel-last,
}
use esp32_fl.Server.System.Busy.{mem-remove_other}

-- The nodes behind a message that was counted.
record Behind (current : ℕ) (ip : String) (ns ns' : List ClientNode) : Type 0 where
  pub distinct : Distinct ns'
  pub size : length ns' ≡ length ns
  pub awaited : pending current ns' ≡ remove ip (pending current ns)

module _ {F : Type 0} (ip : String) (c c' : NodeControl F) (k : Counts ip c c') (h : IsSteady c)
    (a : IsAwaited ip c) where
  counted_small : c.currentinteraction + 1 < int_mod
  counted_small = omega (arith, h.small, h.within, a.unfinished)

  counted-Behind : Behind c.currentinteraction ip c.nodes c'.nodes
  counted-Behind =
      let counted =
        count_interaction-Counted c.currentinteraction ip c.nodes (omega (arith, counted_small))
          h.valid.distinct a.awaited in
      let same : counted.result ≡ c'.nodes = ground (arith, counted.runs, k.counted) in
      rw (← same) (record {
        distinct = counted.distinct;
        size =
            sym (length-map counted.result ClientNode.ip_id)
            ∙ ap length counted.same
            ∙ length-map c.nodes ClientNode.ip_id;
        awaited = counted.awaited;
      })

  -- The interaction goes on while a node is awaited.
  counted_current :
      ((any (is_pending c.currentinteraction) c'.nodes ≡ true)
        × (c'.currentinteraction ≡ c.currentinteraction))
      ⊎ ((any (is_pending c.currentinteraction) c'.nodes ≡ false)
          × (c'.currentinteraction ≡ c.currentinteraction + 1))
  counted_current = elim (Bool-cases (any (is_pending c.currentinteraction) c'.nodes)) [
    | inl more ↦ inl (more, ground (arith, k.current))
    | inr last ↦ inr (last, ground (arith, k.current, counted_small))
  ]

  counted_levels :
      (c'.currentinteraction ≤ c'.interactioncycle) × All (IsLevel c'.currentinteraction) c'.nodes
  counted_levels =
      let levels =
        count_interaction-IsLevel c.currentinteraction ip c.nodes counted_small h.valid.distinct
          a.awaited h.levels k.counted in
      elim counted_current [
        | inl (more, now) ↦ (omega (arith, now, h.within, k.cycle), rw now levels)
        | inr (last, now) ↦ (
          omega (arith, now, h.within, k.cycle, a.unfinished),
          rw now (IsLevel-next c.currentinteraction c'.nodes last levels),
        )
      ]

  pub Counts-IsSteady : IsSteady c'
  Counts-IsSteady = record {
    valid = record {
      distinct = counted-Behind.distinct;
      counted = k.registered ∙ h.valid.counted ∙ sym counted-Behind.size;
      within = omega (arith, counted-Behind.size, k.places, h.valid.within);
      fits = omega (arith, k.places, h.valid.fits);
    };
    small = omega (arith, k.cycle, h.small);
    within = counted_levels.0;
    levels = counted_levels.1;
    early = λ room. absurd (room (k.registered ∙ a.full ∙ sym k.places));
  }

  -- All others that were awaited still are.
  pub Counts-IsAwaited : (x : String) → x ≢ ip → IsAwaited x c → IsAwaited x c'
  Counts-IsAwaited x other b =
      let still : mem x (pending c.currentinteraction c'.nodes) ≡ true =
        ap (mem x) counted-Behind.awaited
        ∙ mem-remove_other x ip (pending c.currentinteraction c.nodes) other
        ∙ b.awaited in
      elim counted_current [
        | inl (more, now) ↦ record {
          awaited = rw now still;
          unfinished = ground (arith, now, k.cycle, b.unfinished);
          full = k.registered ∙ b.full ∙ sym k.places;
        }
        | inr (last, now) ↦
            absurd (ground (arith, pending-any c.currentinteraction x c'.nodes still))
      ]

  -- Someone is awaited behind it.
  pub Counts-awaits : (any (is_pending c'.currentinteraction) c'.nodes ≡ true) ⊎ (c'.nodes ≡ [])
  Counts-awaits =
      let levels =
        count_interaction-IsLevel c.currentinteraction ip c.nodes counted_small h.valid.distinct
          a.awaited h.levels k.counted in
      elim counted_current [
        | inl (more, now) ↦ inl (rw now more)
        | inr (last, now) ↦ rw now (IsLevel-last c.currentinteraction c'.nodes last levels)
      ]
