-- ===== src/Voice/Settling.antt =====
-- How a turn and a barge-in of `InteractionCore` (python/tom/voice/interaction_core.py) end.
use tom.Prelude.{
  ◌⊎◌, inl, inr, ℕ, ◌+◌, ◌≡◌, refl, sym, ap, subst, ◌∙◌, Bool, true, false, Option, none, some,
  List, [], ◌∷◌, arith, if◌then◌else◌,
}
use tom.Voice.Pipeline.{listening}
use tom.Voice.Core.{
  Turn, listens, reaping, InteractionCore, transition, keep_cancelled, begin_stop, invalidate,
  handle_barge_in, finish_stop,
}
use tom.Voice.Turns.{
  drop_turn, is_finished, complete_playback, end_turn, is_interrupted, return_to_listening,
  on_turn_done, drop_turn, finish_barge_in, go_on,
}
use tom.Voice.Runs.{
  Event, speech_starts, ends, done, flushed, reaped, new, has_running, on_speech_start, apply, run,
  reap,
}
use tom.Voice.Invariant.{step-idle, IsLive, end_turn-IsLive, finish_barge_in-listening}
use tom.Voice.Safety.{run-IsSettled}

-- LISTENING with the microphone open, no turn and no audio.
abbrev pub IsListening : InteractionCore → Type 0
IsListening c =
    (c.state ≡ listening)
    × (c.is_gated ≡ false)
    × (c.active_turn ≡ none)
    × (c.playback_active ≡ false)

end_turn-finished :
    (t : Turn) (c : InteractionCore)
    → c.active_turn ≡ some t
    → is_finished (end_turn t c).active_turn ≡ true
unfolding end_turn complete_playback
end_turn-finished t c e = ground arith

end_turn-quiet : (t : Turn) (c : InteractionCore) → is_interrupted (end_turn t c) ≡ is_interrupted c
unfolding end_turn complete_playback
end_turn-quiet t c = ground arith

end_turn-stale :
    (t : Turn) (c : InteractionCore) → (end_turn t c).has_stale_callback ≡ c.has_stale_callback
unfolding end_turn complete_playback
end_turn-stale t c = ground arith

settled-IsLive :
    (c : InteractionCore) → is_interrupted c ≡ false → (c.is_stopped ≡ true) ⊎ IsLive c → IsLive c
settled-IsLive c e (inl s) = absurd (ground (arith, e, s))
settled-IsLive c e (inr h) = h

done-IsListening :
    (window : ℕ) (c : InteractionCore)
    → is_interrupted c ≡ false
    → is_finished c.active_turn ≡ true
    → c.has_stale_callback ≡ false
    → IsLive c
    → IsListening (apply window done c)
unfolding apply on_turn_done return_to_listening transition
done-IsListening window c i f b h =
    let g : c.is_gated ≡ false = ground (arith, i, f, h.1) in
    rw (f, b, i, step-idle c.state, g) (refl, refl, refl, refl)

ends-with :
    (t : Turn) (c : InteractionCore)
    → c.active_turn ≡ some t
    → t.is_finished ≡ false
    → c.has_stale_callback ≡ false
    → (window : ℕ) → apply window ends c ≡ end_turn t c
unfolding apply
ends-with t c e f b window = rw (e, f, b) refl

running_turn :
    (o : Option Turn) → has_running o ≡ true → (t : Turn) × (o ≡ some t) × (t.is_finished ≡ false)
running_turn none h = absurd (ground (arith, h))
running_turn (some t) h = (t, refl, ground (arith, h))

ended-IsListening :
    (window : ℕ) (t : Turn) (c : InteractionCore)
    → c.active_turn ≡ some t
    → t.is_finished ≡ false
    → c.has_stale_callback ≡ false
    → is_interrupted c ≡ false
    → IsLive c
    → IsListening (run window (ends ∷ done ∷ []) c)
unfolding run
ended-IsListening window t c e f b i h =
    subst (λ d. IsListening (apply window done d)) (sym (ends-with t c e f b window))
      (done-IsListening window (end_turn t c) (end_turn-quiet t c ∙ i) (end_turn-finished t c e)
        (end_turn-stale t c ∙ b) (end_turn-IsLive t c e h))

-- When the task of the active turn ends after any run, whatever it has done before, and its done
-- callback runs, the pipeline is LISTENING, the microphone is open and no audio plays, unless a
-- barge-in or a stop came or a callback of an earlier turn is still to run.
pub turn_returns_to_listening :
    (window : ℕ) (es : List Event)
    → has_running (run window es new).active_turn ≡ true
    → (run window es new).has_stale_callback ≡ false
    → is_interrupted (run window es new) ≡ false
    → IsListening (run window (ends ∷ done ∷ []) (run window es new))
turn_returns_to_listening window es r b i =
    let (t, e, f) = running_turn (run window es new).active_turn r in
    ended-IsListening window t (run window es new) e f b i
      (settled-IsLive (run window es new) i (run-IsSettled window es))

untaken : {A : Type 0} → (b : Bool) (x y : A) → b ≡ false → (if b then x else y) ≡ y
untaken true x y h = absurd (ground (arith, h))
untaken false x y h = refl

reap-listens :
    (window now e : ℕ) (c : InteractionCore)
    → c.phase ≡ reaping e listens
    → c.active_turn ≡ none
    → apply window (reaped now) c ≡ transition listening (finish_barge_in e c)
unfolding apply go_on
reap-listens window now e c p a =
    ap (λ q. reap window now q c) p ∙ untaken (has_running c.active_turn) c _ (ap has_running a)

-- The turn has ended, and the barge-in is over.
reaped-IsListening :
    (window now e : ℕ) (c : InteractionCore)
    → c.phase ≡ reaping e listens
    → e ≡ c.epoch
    → c.active_turn ≡ none
    → c.playback_active ≡ false
    → IsListening (apply window (reaped now) c) × ((apply window (reaped now) c).epoch ≡ c.epoch)
unfolding transition drop_turn
reaped-IsListening window now e c p h a q =
    subst (λ d. IsListening d × (d.epoch ≡ c.epoch))
      (sym (
        reap-listens window now e c p a
        ∙ ap (transition listening) (finish_barge_in-listening e c h)))
      ((refl, refl, refl, q), refl)

barged_in :
    (window now : ℕ) (ok : Bool) (t : Turn) (c : InteractionCore)
    → c.active_turn ≡ some t
    → t.is_finished ≡ false
    → is_interrupted c ≡ false
    → ((run window (speech_starts now ∷ flushed ok ∷ []) c).phase ≡ reaping (c.epoch + 1) listens)
      × ((run window (speech_starts now ∷ flushed ok ∷ []) c).active_turn
          ≡ some (record t { is_cancelled = true }))
      × ((run window (speech_starts now ∷ flushed ok ∷ []) c).epoch ≡ c.epoch + 1)
      × ((run window (speech_starts now ∷ flushed ok ∷ []) c).has_stale_callback
          ≡ c.has_stale_callback)
unfolding run apply on_speech_start handle_barge_in invalidate begin_stop keep_cancelled finish_stop
barged_in window now ok t c e f i = ground arith

done-dropped :
    (window : ℕ) (c : InteractionCore)
    → is_finished c.active_turn ≡ true
    → c.has_stale_callback ≡ false
    → ((apply window done c).phase ≡ c.phase)
      × ((apply window done c).epoch ≡ c.epoch)
      × ((apply window done c).active_turn ≡ none)
      × ((apply window done c).playback_active ≡ false)
unfolding apply on_turn_done return_to_listening transition
done-dropped window c f b = ground (arith, f, b)

end_turn-kept :
    (t : Turn) (c : InteractionCore)
    → ((end_turn t c).phase ≡ c.phase) × ((end_turn t c).epoch ≡ c.epoch)
unfolding end_turn complete_playback
end_turn-kept t c = ground arith

dropped :
    (window : ℕ) (t : Turn) (c : InteractionCore)
    → c.active_turn ≡ some t
    → t.is_finished ≡ false
    → c.has_stale_callback ≡ false
    → ((run window (ends ∷ done ∷ []) c).phase ≡ c.phase)
      × ((run window (ends ∷ done ∷ []) c).epoch ≡ c.epoch)
      × ((run window (ends ∷ done ∷ []) c).active_turn ≡ none)
      × ((run window (ends ∷ done ∷ []) c).playback_active ≡ false)
unfolding run
dropped window t c e f b =
    let d = end_turn t c in
    let (p, n, a, q) = done-dropped window d (end_turn-finished t c e) (end_turn-stale t c ∙ b) in
    let (p', n') = end_turn-kept t c in
    subst
      (λ x.
        ((apply window done x).phase ≡ c.phase)
        × ((apply window done x).epoch ≡ c.epoch)
        × ((apply window done x).active_turn ≡ none)
        × ((apply window done x).playback_active ≡ false))
      (sym (ends-with t c e f b window)) (p ∙ p', n ∙ n', a, q)

barge_in :
    (window now later : ℕ) (ok : Bool) (t : Turn) (c : InteractionCore)
    → c.active_turn ≡ some t
    → t.is_finished ≡ false
    → c.has_stale_callback ≡ false
    → is_interrupted c ≡ false
    → IsListening (run window (speech_starts now ∷ flushed ok ∷ ends ∷ done ∷ reaped later ∷ []) c)
      × ((run window (speech_starts now ∷ flushed ok ∷ ends ∷ done ∷ reaped later ∷ []) c).epoch
          ≡ c.epoch + 1)
unfolding run
barge_in window now later ok t c e f b i =
    let (p, a, n, l) = barged_in window now ok t c e f i in
    let d = run window (speech_starts now ∷ flushed ok ∷ []) c in
    let t' : Turn = record t { is_cancelled = true } in
    let (p', n', a', q) = dropped window t' d a f (l ∙ b) in
    let x = run window (ends ∷ done ∷ []) d in
    let (r, m) = reaped-IsListening window later (c.epoch + 1) x (p' ∙ p) (sym (n' ∙ n)) a' q in
    (r, m ∙ n' ∙ n)

-- When speech starts after any run while a turn is active, and no barge-in or stop is under way nor
-- a callback of an earlier turn still to run, then after the answer of the engine, if audio is
-- live, the end of the turn and its callback, the pipeline is LISTENING in the next epoch, the
-- microphone is open, no turn is active and no audio plays, even if the engine could not stop.
pub barge_in_returns_to_listening :
    (window now later : ℕ) (ok : Bool) (es : List Event)
    → has_running (run window es new).active_turn ≡ true
    → (run window es new).has_stale_callback ≡ false
    → is_interrupted (run window es new) ≡ false
    → IsListening (
        run window
          (speech_starts now ∷ flushed ok ∷ ends ∷ done ∷ reaped later ∷ [])
          (run window es new))
      × ((run window
            (speech_starts now ∷ flushed ok ∷ ends ∷ done ∷ reaped later ∷ [])
            (run window es new)).epoch
          ≡ (run window es new).epoch + 1)
barge_in_returns_to_listening window now later ok es r b i =
    let (t, e, f) = running_turn (run window es new).active_turn r in
    barge_in window now later ok t (run window es new) e f b i
