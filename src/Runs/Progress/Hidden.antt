-- ===== src/Runs/Progress/Hidden.antt =====
-- What the run view cannot learn of a task's result.
use seapath_webui.Common.{
  Text, codes, true, false, some, ◌≡◌, ◌⊎◌, inl, inr, refl, ap, sym, Bool-cases,
}
use seapath_webui.Common.Dict.{Dict}
use seapath_webui.Runs.Checks.{Json, truth_of}
use seapath_webui.Runs.Progress.{HostResult, ResultOutcome, outcome_of}
use seapath_webui.Runs.Progress.Summary.{
  host_event, result_summary, result_data, get, shows_message, is_debug, debug_output,
  failure_message, message_of, result_of, summarise, Alike,
}

module _ (shown : Json → Text) (dumped : Dict Json → Text) where
  result_data-Alike :
      (fields res other : Dict Json)
      → truth_of (get (codes "changed") res) ≡ truth_of (get (codes "changed") other)
      → result_data (record { fields = fields; res = res })
        ≡ result_data (record { fields = fields; res = other })
  unfolding result_data
  result_data-Alike fields res other e = rw e refl

  message_of-Alike :
      (outcome : ResultOutcome) (res other : Dict Json)
      → (shows_message outcome ≡ true
          → failure_message shown dumped res ≡ failure_message shown dumped other)
      → message_of shown dumped outcome res ≡ message_of shown dumped outcome other
  unfolding message_of
  message_of-Alike outcome res other h = elim (Bool-cases (shows_message outcome)) [
    | inl e ↦ rw e (h e)
    | inr e ↦ rw e refl
  ]

  debug_output-Alike :
      (fields res other : Dict Json)
      → (is_debug shown dumped fields ≡ false)
        ⊎ ((truth_of (get (codes "_ansible_no_log") res) ≡ true)
            × (truth_of (get (codes "_ansible_no_log") other) ≡ true))
      → debug_output shown dumped (record { fields = fields; res = res })
        ≡ debug_output shown dumped (record { fields = fields; res = other })
  unfolding debug_output
  debug_output-Alike fields res other (inl e) = rw e refl
  debug_output-Alike fields res other (inr (p, q)) =
      elim (Bool-cases (is_debug shown dumped fields)) [
        | inl e ↦ rw (e, p, q) refl
        | inr e ↦ rw e refl
      ]

  result_of-Alike :
      (result : HostResult) (fields res other : Dict Json)
      → Alike shown dumped result fields res other
      → result_of shown dumped result (record { fields = fields; res = res })
        ≡ result_of shown dumped result (record { fields = fields; res = other })
  unfolding result_of
  result_of-Alike result fields res other (changed, message, output) =
      let outcome = outcome_of result (result_data (record { fields = fields; res = res })) in
      let said = message_of-Alike outcome res other message in
      rw
        (
          sym (ap (outcome_of result) (result_data-Alike fields res other changed)),
          debug_output-Alike fields res other output,
          said,
        )
        refl

  -- Two results of a task on a host give the run view the same summary, whatever else their payloads
  -- hold, where they agree on whether something changed, on the message where the result is a failure, an
  -- ignored one or an unreachable host, and where the task is no `debug` or both are under `no_log`.
  pub summarise_hides :
      (result : HostResult) (fields res other : Dict Json)
      → Alike shown dumped result fields res other
      → summarise shown dumped (host_event result) (record { fields = fields; res = res })
        ≡ summarise shown dumped (host_event result) (record { fields = fields; res = other })
  unfolding summarise
  summarise_hides result fields res other h =
      ap (λ s. some (result_summary s)) (result_of-Alike result fields res other h)
