-- ===== src/Sim/Heap/Shared.antt =====
-- internal/sim/heap.go: two nodes whose timers carry the same id, as the first timers of any two
-- nodes do.
use election_go.Base.{ℕ, ◌≡◌, ◌≢◌, true, false, arith, some, ap, ◌∙◌}
use election_go.Sim.Heap.{TimerHeap, add, remove}
use election_go.Sim.Heap.Index.{Holds}
use election_go.Sim.Heap.Registry.{
  IsIndexed, IsAbsent, add-Pushed, add-IsIndexed, remove-Dropped, remove-unknown,
}

module _ (h : TimerHeap) (t t' id : ℕ) (v : IsIndexed h) (here : Holds h t) (out : IsAbsent t' h)
    (one : (h.objects t).timer_id ≡ id) (two : (h.objects t').timer_id ≡ id) where
  distinct : t ≢ t'
  distinct e = out here.0 (here.1 ∙ ap some e)

  added-by_id : (add t' h).by_id id ≡ some t'
  added-by_id = ground (arith, ap (λ (f : ℕ → _). f id) (add-Pushed t' h v.placed out).by_id)

  -- When a node adds a timer whose id a timer of another node has already, `Remove` of that id takes
  -- the new timer, whichever node asks for it; the old one stays, and cannot be removed again.
  pub remove-other :
      let r = remove id (add t' h) in
      (r.0 ≡ true) × IsAbsent t' r.1 × Holds r.1 t × ((remove id r.1).0 ≡ false)
  remove-other =
      let p = add-Pushed t' h v.placed out in
      let d = remove-Dropped id (add t' h) t' (add-IsIndexed t' h v out) added-by_id in
      (
        d.0,
        d.1.gone,
        d.1.kept t distinct (p.kept t here),
        ap (λ (r : _ × _). r.0) (remove-unknown id _ (ground (arith, d.1.by_id id, p.timer_id t'))),
      )
