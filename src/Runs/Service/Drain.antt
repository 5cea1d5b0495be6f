-- ===== src/Runs/Service/Drain.antt =====
-- app/runs/service.py: the loop of `_dispatch`, with the ends of the runs that it starts. A run that a
-- round starts is played to its end before the next round, since until then the lock is not free.
use seapath_webui.Common.{
  ℕ, Text, ◌==◌, eq_iff, is_empty, length, All, true, false, none, some, List, [], ◌∷◌, ◌≡◌, ◌≢◌,
  refl, ap, sym, ◌∙◌, subst, inl, inr, arith, Bool-cases,
}
use seapath_webui.Runs.Models.{RunRecord, RunProgress, failed, is_finished}
use seapath_webui.Runs.Store.{load, lock_holder, holder_of}
use seapath_webui.Runs.Service.{Prepared, Service, Start}
use seapath_webui.Runs.Service.Queue.{
  Round, ended, waited, playing, unstarted, dispatcher_died, dispatch_round, after_turn, start_head,
}
use seapath_webui.Runs.Service.Ending.{Played, end_run}
use seapath_webui.Runs.Service.Ends.{end_run_lem}
use seapath_webui.Runs.Service.Begins.{Calm}
use seapath_webui.Runs.Service.Turns.{
  Turned, Turned-TurnedIf, with_lock, next_turn-taken, start_head-Turned,
}
use seapath_webui.Runs.Service.Keeps.{
  Keeps, nothing_changed, both_keep, Lives, Keeps-start_head, Keeps-end_run,
}

-- How a run ends, should it be played.
pub record End : Type 0 where
  pub now : ℕ
  pub first_error : Text
  pub progress : RunProgress
  pub played : Played

unfoldable pub played_out : End → Round × Service → Service
played_out end (playing run, service) =
    (end_run end.now end.first_error end.progress end.played run service).1
played_out end (other, service) = service

-- A round of the dispatcher, and the end of the run that it started.
unfoldable pub serve : Start × End → Service → Service
unfolding played_out
serve (start, end) service = played_out end (dispatch_round start service)

unfoldable pub drain : List (Start × End) → Service → Service
drain [] service = service
drain (turn ∷ turns) service = drain turns (serve turn service)

-- A run whose record says that it is over.
abbrev pub Finished : Text → Service → Type 0
Finished run_id service =
    (run : RunRecord) × (load run_id service.store ≡ some run) × (is_finished run.state ≡ true)

-- A run that can be served: its identifier is not empty, its directory is there, and its record can be
-- written.
abbrev pub Servable : Service → Prepared → Type 0
Servable service item =
    (is_empty item.run.id ≡ false)
    × (load item.run.id service.store ≢ none)
    × (service.store.refusal item.run.id ≡ none)

record Served (before after : Service) (head : Prepared) (rest : List Prepared) : Type 0 where
  queue : after.queue ≡ rest
  free : after.store.lock ≡ none
  finished : Finished head.run.id after
  keeps : Keeps before after head.run.id

failed_finished : (run : RunRecord) → run.state ≡ failed → is_finished run.state ≡ true
unfolding is_finished
failed_finished run e = rw e refl

missing : (run : RunRecord) → some run ≡ none → ⊥
missing run e = cc

played_out_lem :
    (end : End) (before after : Service) (head : Prepared) (rest : List Prepared) (round : Round)
    → Turned before after head rest round
    → Keeps before after head.run.id
    → Lives round
    → before.store.refusal head.run.id ≡ none
    → Served before (played_out end (round, after)) head rest
unfolding played_out
played_out_lem end before after head rest (playing run) (same, state, queue, threads, held, loaded)
      keeps lives willing =
    let here' : load run.id after.store ≢ none = λ gone. missing run (sym loaded ∙ gone) in
    let (over, saved, hashes, effect) =
      end_run_lem end.now end.first_error end.progress end.played run after here'
        (ap after.store.refusal same ∙ (ap (λ r. r head.run.id) keeps.refusals ∙ willing)) in
    let (kept, same_queue) =
      Keeps-end_run end.now end.first_error end.progress end.played run after in
    let last = (end_run end.now end.first_error end.progress end.played run after).1 in
    record {
      queue = same_queue ∙ queue;
      free = effect.lock_free held;
      finished = (over, ap (λ k. load k last.store) (sym same) ∙ effect.saved, effect.finished);
      keeps = both_keep before after last head.run.id keeps (subst (Keeps after last) same kept);
    }
played_out_lem end before after head rest (unstarted run)
      (same, state, queue, threads, free, loaded) keeps lives willing =
    record {
      queue = queue;
      free = free;
      finished = (run, ap (λ k. load k after.store) (sym same) ∙ loaded, failed_finished run state);
      keeps = keeps;
    }
played_out_lem end before after head rest (dispatcher_died error) turned keeps lives willing =
    absurd lives
played_out_lem end before after head rest ended turned keeps lives willing = absurd turned
played_out_lem end before after head rest waited turned keeps lives willing = absurd turned

serve_lem :
    (turn : Start × End) (service : Service) (head : Prepared) (rest : List Prepared)
    → service.queue ≡ head ∷ rest
    → service.store.lock ≡ none
    → Calm turn.0
    → Servable service head
    → Served service (serve turn service) head rest
unfolding serve dispatch_round after_turn load
serve_lem (start, end) service head rest waiting free calm (proper, here, willing) =
    let between = with_lock head rest service in
    let (round, after) = start_head start head between in
    let held : lock_holder between.store ≡ some head.run.id =
      unfold lock_holder holder_of in rw proper refl in
    let turned =
      Turned-TurnedIf between after head rest round calm
        (start_head-Turned start head between held) in
    let (kept, lives) = Keeps-start_head start head between here willing in
    let served = played_out_lem end between after head rest round turned kept lives willing in
    rw (next_turn-taken head rest service waiting free) (record {
      queue = served.queue;
      free = served.free;
      finished = served.finished;
      keeps =
          both_keep service between _ head.run.id
            (nothing_changed service between head.run.id (λ k. refl) refl) served.keeps;
    })

-- The records that are there after a turn, and those that are over, are those of before and the head's.
stays_there :
    (before after : Service) (head : Prepared) (rest : List Prepared) (run_id : Text)
    → Served before after head rest
    → load run_id before.store ≢ none
    → load run_id after.store ≢ none
stays_there before after head rest run_id served here = elim (Bool-cases (head.run.id == run_id)) [
  | inl same ↦
      let e = (eq_iff head.run.id run_id).0 same in
      subst (λ k. load k after.store ≢ none) e
        (served.keeps.stays (subst (λ k. load k before.store ≢ none) (sym e) here))
  | inr other ↦ λ gone. here (sym (served.keeps.others run_id other) ∙ gone)
]

still_over :
    (before after : Service) (head : Prepared) (rest : List Prepared) (run_id : Text)
    → Served before after head rest
    → Finished run_id before
    → Finished run_id after
still_over before after head rest run_id served (run, loaded, over) =
    elim (Bool-cases (head.run.id == run_id)) [
      | inl same ↦
          subst (λ k. Finished k after) ((eq_iff head.run.id run_id).0 same) served.finished
      | inr other ↦ (run, served.keeps.others run_id other ∙ loaded, over)
    ]

still_ready :
    (before after : Service) (head : Prepared) (rest items : List Prepared)
    → Served before after head rest
    → All (Servable before) items
    → All (Servable after) items
still_ready before after head rest [] served all_servable = tt
still_ready before after head rest (item ∷ items) served ((proper, here, willing), others) = (
  (
    proper,
    stays_there before after head rest item.run.id served here,
    ap (λ r. r item.run.id) served.keeps.refusals ∙ willing,
  ),
  still_ready before after head rest items served others,
)

drain_lem :
    (turns : List (Start × End)) (service : Service) (items : List Prepared)
    → service.queue ≡ items
    → length turns ≡ length items
    → service.store.lock ≡ none
    → All (λ turn. Calm turn.0) turns
    → All (Servable service) items
    → let after = drain turns service in
      (after.queue ≡ [])
      × (after.store.lock ≡ none)
      × All (λ item. Finished item.run.id after) items
      × ((run_id : Text) → Finished run_id service → Finished run_id after)
unfolding drain
drain_lem [] service [] waiting same free calm servable = (waiting, free, tt, λ run_id over. over)
drain_lem [] service (item ∷ items) waiting same free calm servable = absurd (omega (arith, same))
drain_lem (turn ∷ turns) service [] waiting same free calm servable = absurd (omega (arith, same))
drain_lem (turn ∷ turns) service (item ∷ items) waiting same free (calm, later_calm)
      (ready, servable) =
    let served = serve_lem turn service item items waiting free calm ready in
    let after = serve turn service in
    let (emptied, unlocked, finished, later) =
      drain_lem turns after items served.queue (omega (arith, same)) served.free later_calm
        (still_ready service after item items items served servable) in
    (
      emptied,
      unlocked,
      (later item.run.id served.finished, finished),
      λ run_id over. later run_id (still_over service after item items run_id served over),
    )

-- The queue empties in as many turns as there are runs that wait, however each of them ends, and whether
-- it is played or what `_begin` tries first raises: after them nothing waits, the lock is free, and every
-- run that waited has a record that says it is over. It holds where the lock is free, the identifiers
-- are not empty, the directories are there, their records can be written, and nothing is raised after
-- the `try` of `_begin`.
pub drain_empties :
    (service : Service) (turns : List (Start × End))
    → length turns ≡ length service.queue
    → service.store.lock ≡ none
    → All (λ turn. Calm turn.0) turns
    → All (Servable service) service.queue
    → let after = drain turns service in
      (after.queue ≡ [])
      × (after.store.lock ≡ none)
      × All (λ item. Finished item.run.id after) service.queue
drain_empties service turns same free calm servable =
    let (emptied, unlocked, finished, _) =
      drain_lem turns service service.queue refl same free calm servable in
    (emptied, unlocked, finished)
