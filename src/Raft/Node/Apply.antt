-- ===== src/Raft/Node/Apply.antt =====
-- The loop of `_apply_committed` (engine/raft_consensus.py) and the replay of a log.
use prodinamik_engine.Prelude.{
  ℕ, zero, suc, ◌+◌, ◌-◌, ◌≤◌, ◌<◌, ◌≡◌, refl, sym, ◌∙◌, ap, some, List, [], ◌∷◌, ◌++◌, arith,
  foldl, length, get_elem?, take, take-suc, get_elem?-some, none,
}
use mathlib.Core.List.{foldl-append}
use native.Mathlib.Numerals.{add-one}
use native.Mathlib.Decide.{dec_lt}
use prodinamik_engine.Dict.{Dict}
use prodinamik_engine.Raft.Types.{LogEntry, NodeState, Result, ok, raised, index_error}
use prodinamik_engine.Raft.Machine.{apply_command}
use prodinamik_engine.Raft.Log.Matching.{get_elem?-past}
use prodinamik_engine.Raft.Node.{Node, and_then, apply_loop, apply_committed}

-- The table that the entries make of `base`, applied in order.
unfoldable pub replay : Dict NodeState → List LogEntry → Dict NodeState
replay = foldl (λ sm e. apply_command sm e.command)

pub replay-append :
    (base : Dict NodeState) (log : List LogEntry) (e : LogEntry)
    → replay base (log ++ e ∷ []) ≡ apply_command (replay base log) e.command
unfolding replay
replay-append base log e = foldl-append (λ sm x. apply_command sm x.command) base log (e ∷ [])

-- The table is what the applied entries make of `base`.
abbrev pub IsReplayed : Dict NodeState → Node → Type 0
IsReplayed base n = n.state_machine ≡ replay base (take n.applied_count n.log)

-- The node with all committed entries applied.
abbrev pub caught_up : Dict NodeState → Node → Node
caught_up base n = record n {
  applied_count = n.commit_count;
  state_machine = replay base (take n.commit_count n.log);
}

abbrev applied_one : LogEntry → Node → Node
applied_one e n = record n {
  applied_count = n.applied_count + 1;
  state_machine = apply_command n.state_machine e.command;
}

applied_one-IsReplayed :
    (base : Dict NodeState) (e : LogEntry) (n : Node)
    → get_elem? n.log n.applied_count ≡ some e
    → IsReplayed base n
    → IsReplayed base (applied_one e n)
applied_one-IsReplayed base e n h r = rw add-one (
    ap (λ sm. apply_command sm e.command) r
    ∙ sym (replay-append base (take n.applied_count n.log) e)
    ∙ ap (replay base) (sym (take-suc n.applied_count n.log e h)))

pub caught_up_id :
    (base : Dict NodeState) (n : Node)
    → IsReplayed base n
    → n.applied_count ≡ n.commit_count
    → n ≡ caught_up base n
caught_up_id base n r done = λ i. record n {
  applied_count = done i;
  state_machine = (r ∙ ap (λ k. replay base (take k n.log)) done) i;
}

apply_loop_step :
    (fuel : ℕ) (e : LogEntry) (n : Node)
    → n.applied_count < n.commit_count
    → get_elem? n.log n.applied_count ≡ some e
    → apply_loop (suc fuel) n ≡ apply_loop fuel (applied_one e n)
unfolding apply_loop
apply_loop_step fuel e n lt h = ground arith

apply_loop_done :
    (fuel : ℕ) (n : Node) → n.applied_count ≡ n.commit_count → apply_loop fuel n ≡ (ok tt, n)
unfolding apply_loop
apply_loop_done zero n h = refl
apply_loop_done (suc fuel) n h = ground arith

apply_loop_lem :
    (fuel : ℕ) (base : Dict NodeState) (n : Node)
    → IsReplayed base n
    → n.applied_count + fuel ≡ n.commit_count
    → n.commit_count ≤ length n.log
    → apply_loop fuel n ≡ (ok tt, caught_up base n)
apply_loop_lem zero base n r e h =
    let done : n.applied_count ≡ n.commit_count = omega arith in
    apply_loop_done zero n done ∙ ap (λ m. (ok tt, m)) (caught_up_id base n r done)
apply_loop_lem (suc fuel) base n r e h =
    let (entry, here) = get_elem?-some n.log n.applied_count (omega arith) in
    apply_loop_step fuel entry n (omega arith) here
    ∙ apply_loop_lem fuel base (applied_one entry n) (applied_one-IsReplayed base entry n here r)
        (omega arith) h

pub apply_committed_lem :
    (base : Dict NodeState) (n : Node)
    → IsReplayed base n
    → n.applied_count ≤ n.commit_count
    → n.commit_count ≤ length n.log
    → apply_committed n ≡ (ok tt, caught_up base n)
unfolding apply_committed
apply_committed_lem base n r le h =
    apply_loop_lem (n.commit_count - n.applied_count) base n r (omega arith) h

-- With a commit index past the log the loop runs off its end, and `IndexError` leaves it.
apply_loop_raises :
    (fuel : ℕ) (n : Node)
    → n.applied_count + fuel ≡ n.commit_count
    → n.applied_count ≤ length n.log
    → length n.log < n.commit_count
    → (apply_loop fuel n).0 ≡ raised index_error
apply_loop_raises zero n e le h = absurd (omega arith)
apply_loop_raises (suc fuel) n e le h = elim (dec_lt n.applied_count (length n.log)) [
  | yes inside ↦
      let (entry, here) = get_elem?-some n.log n.applied_count inside in
      rw (apply_loop_step fuel entry n (omega arith) here)
        (apply_loop_raises fuel (applied_one entry n) (omega arith) (omega arith) h)
  | no outside ↦
      apply_loop_off fuel n (omega arith) (get_elem?-past n.log n.applied_count (omega arith))
]
  where
    apply_loop_off :
        (fuel : ℕ) (n : Node)
        → n.applied_count < n.commit_count
        → get_elem? n.log n.applied_count ≡ none
        → (apply_loop (suc fuel) n).0 ≡ raised index_error
    apply_loop_off fuel n lt off = unfold apply_loop in ground arith

-- Where the commit index points past the log, `_apply_committed` raises.
pub apply_committed_raises :
    (n : Node)
    → n.applied_count ≤ length n.log
    → length n.log < n.commit_count
    → (apply_committed n).0 ≡ raised index_error
unfolding apply_committed
apply_committed_raises n le h =
    apply_loop_raises (n.commit_count - n.applied_count) n (omega arith) le h

pub and_then_raised {ℓ} :
    {A : Type ℓ} (r : Result (Unit {0}) × Node) (k : Node → Result A × Node)
    → r.0 ≡ raised index_error
    → (and_then r k).0 ≡ raised index_error
and_then_raised (ok u, n) k h = cc
and_then_raised (raised f, n) k h = cc
