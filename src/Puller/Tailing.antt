-- ===== src/Puller/Tailing.antt =====
-- `StreamPull` of pkg/cloudlogging/puller.go: what it sends to its channel, and how it ends.
use mathlib.Core.List.{append-nil}
use lumberjack.Prelude.{◌≡◌, refl, ◌∙◌, ℕ, zero, suc, true, none, List, [], ◌++◌}
use lumberjack.Errors.{Err, ok, err, is_err, end_of_file}
use lumberjack.Puller.{TailClient, TailRequest, Puller, Pulled, after_tail, tail_loop, tail_attempt}
use lumberjack.Puller.Retries.{running}

module _ {W E : Type 0} (t : TailClient W E) where
  -- Calls on the stream, one after the other, and the entries that they receive.
  pub data Heard (req : TailRequest) : W → List E → W → Type 0 where
    start : {w : W} → Heard req w [] w
    sends : {w w' : W} {es : List E} → Heard req w es w' → Heard req w es (t.send req w').0
    hears :
        {w w' : W} {es new : List E}
        → Heard req w es w'
        → (t.recv w').1 ≡ ok new
        → Heard req w (es ++ new) (t.recv w').0
    fails :
        {w w' : W} {es : List E} {e : Err}
        → Heard req w es w'
        → (t.recv w').1 ≡ err e
        → Heard req w es (t.recv w').0

  -- The channel has carried what it had carried at first and then what was received.
  abbrev pub HasSent : TailRequest → Pulled W E → Pulled W E → Type 0
  HasSent req (sent, w) (sent', w') = (es : List E) × (sent' ≡ sent ++ es) × Heard req w es w'

  -- From these worlds on, every call of `Recv` returns io.EOF.
  pub record HasEnded (Ended : W → Type 0) (w : W) : Type 0 where
    pub error : Err
    pub received : (t.recv w).1 ≡ err error
    pub at_end : is_err end_of_file error ≡ true
    pub still : Ended (t.recv w).0

  tail_loop-endless :
      (Ended : W → Type 0)
      → ((w : W) → Ended w → HasEnded Ended w)
      → (turns : ℕ) (s : Pulled W E) → Ended s.1
      → ((tail_loop t turns s).1 ≡ running) × ((tail_loop t turns s).0.0 ≡ s.0)
  unfolding tail_loop after_tail
  tail_loop-endless Ended ended zero s h = (refl, refl)
  tail_loop-endless Ended ended (suc turns) (sent, w) h =
      let v = ended w h in
      let (running_still, kept) =
        tail_loop-endless Ended ended turns (sent ++ [], (t.recv w).0) v.still in
      rw (v.received, v.at_end) (running_still, kept ∙ append-nil sent)

  -- Once a stream is in a state from which every call of Recv returns io.EOF, an attempt of
  -- StreamPull whose request was sent goes on for any number of turns, with nothing sent to the
  -- channel.
  pub tail_attempt-endless :
      (Ended : W → Type 0)
      → ((w : W) → Ended w → HasEnded Ended w)
      → (req : TailRequest) (turns : ℕ) (s : Pulled W E) → (t.send req s.1).1 ≡ none
      → Ended (t.send req s.1).0
      → ((tail_attempt t req turns s).1 ≡ running) × ((tail_attempt t req turns s).0.0 ≡ s.0)
  unfolding tail_attempt
  tail_attempt-endless Ended ended req turns (sent, w) sent_it h =
      rw sent_it (tail_loop-endless Ended ended turns (sent, (t.send req w).0) h)
