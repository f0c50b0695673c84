-- ===== src/Raft/Offline/Sync.antt =====
-- What writes made offline become when the node is back.
use mathlib.Core.List.{append-nil, append_assoc}
use prodinamik_engine.Prelude.{
  ℕ, ◌+◌, ◌≡◌, refl, sym, ◌∙◌, ap, String, Bool, true, false, Option, none, some, List, [], ◌∷◌,
  ◌++◌, arith, length, length-append, eq_iff, get_or, eq_refl, Bool-cases, Option-cases, inl, inr,
  if◌then◌else◌,
}
use prodinamik_engine.Dict
use prodinamik_engine.Dict.{Dict, get-put}
use prodinamik_engine.Raft.Types.{
  NodeRole, Command, LogEntry, NodeState, PendingOperation, is_leader, truthy, is_type, blank,
  Result, ok, raised,
}
use prodinamik_engine.Raft.Machine.{ensure}
use prodinamik_engine.Raft.Node.{Node, propose, provide_merge}
use prodinamik_engine.Raft.Node.Commit.{IsSound}
use prodinamik_engine.Raft.Node.Commit.Writes.{propose_lem, entry_of}
use prodinamik_engine.Raft.Node.Proposals.{propose-Accepts, propose_refused}
use prodinamik_engine.Raft.Offline.{
  Offline, offer_merge, after_propose, sync_op, sync_with_leader, pending_count, apply_pending,
  go_online,
}

abbrev waiting : PendingOperation → ℕ
waiting op = if op.applied then 0 else 1

abbrev pub commands_of : List LogEntry → List Command
commands_of [] = []
commands_of (e ∷ log) = e.command ∷ commands_of log

-- The commands of the operations that wait, in their order.
abbrev pub waiting_commands : List PendingOperation → List Command
waiting_commands [] = []
waiting_commands (op ∷ ops) =
    let rest = waiting_commands ops in if op.applied then rest else op.command ∷ rest

commands_of-append :
    (log more : List LogEntry) → commands_of (log ++ more) ≡ commands_of log ++ commands_of more
commands_of-append [] more = refl
commands_of-append (e ∷ log) more = ap (λ cs. e.command ∷ cs) (commands_of-append log more)

-- One operation at a sound leader: it is applied, and if it waited its entry is in the leader's log.
record Synced (base : Dict NodeState) (op : PendingOperation) (n : Node)
    (r : Result (Unit {0}) × PendingOperation × Node) : Type 0 where
  answer : r.0 ≡ ok tt
  applied : r.1.applied ≡ true
  sound : IsSound base r.2
  leads : is_leader r.2.role ≡ true
  grown : length r.2.log ≡ length n.log + waiting op
  sent : commands_of r.2.log ≡ commands_of n.log ++ waiting_commands (op ∷ [])

sync_op_old :
    (local : Node) (op : PendingOperation) (n : Node)
    → op.applied ≡ true
    → sync_op local op n ≡ (ok tt, op, n)
unfolding sync_op
sync_op_old local op n h = ground arith

sync_op_waits :
    (local : Node) (op : PendingOperation) (n : Node)
    → op.applied ≡ false
    → sync_op local op n ≡ after_propose local op (propose op.command n)
unfolding sync_op
sync_op_waits local op n h = ground arith

after_propose_ok :
    (local : Node) (op : PendingOperation) (r : Result (Bool × Option String) × Node)
    → r.0 ≡ ok (true, none)
    → after_propose local op r ≡ (ok tt, record op { applied = true }, r.1)
after_propose_ok local op (raised f, n) h = cc
after_propose_ok local op (ok (true, e), n) h = refl
after_propose_ok local op (ok (false, e), n) h = ground arith

sync_op-Synced :
    (base : Dict NodeState) (local : Node) (op : PendingOperation) (n : Node)
    → IsSound base n
    → is_leader n.role ≡ true
    → Synced base op n (sync_op local op n)
sync_op-Synced base local op n s leads = elim (Bool-cases op.applied) [
  | inl old ↦ rw (sync_op_old local op n old) (record {
    answer = refl;
    applied = old;
    sound = s;
    leads = leads;
    grown = ground arith;
    sent = rw old (sym (append-nil (commands_of n.log)));
  })
  | inr waits ↦
      let w = propose_lem base op.command n s in
      let a = propose-Accepts base op.command n s leads in
      rw
        (sync_op_waits local op n waits ∙ after_propose_ok local op (propose op.command n) a.answer)
        (record {
          answer = refl;
          applied = refl;
          sound = w.sound;
          leads = ap is_leader a.role ∙ leads;
          grown = ap length a.log ∙ length-append n.log (entry_of op.command n ∷ []) ∙ ground arith;
          sent =
              rw waits
                (ap commands_of a.log ∙ commands_of-append n.log (entry_of op.command n ∷ []));
        })
]

-- The whole loop at a sound leader.
record AllSynced (base : Dict NodeState) (ops : List PendingOperation) (n : Node)
    (r : Result (Unit {0}) × List PendingOperation × Node) : Type 0 where
  answer : r.0 ≡ ok tt
  none_waits : pending_count r.1 ≡ 0
  sound : IsSound base r.2
  leads : is_leader r.2.role ≡ true
  grown : length r.2.log ≡ length n.log + pending_count ops
  sent : commands_of r.2.log ≡ commands_of n.log ++ waiting_commands ops

sync_cons :
    (local : Node) (op : PendingOperation) (ops : List PendingOperation) (n : Node)
    → (sync_op local op n).0 ≡ ok tt
    → sync_with_leader local (op ∷ ops) n ≡ (
        let (rest, ops', m) = sync_with_leader local ops (sync_op local op n).2 in
        (rest, (sync_op local op n).1 ∷ ops', m))
unfolding sync_with_leader
sync_cons local op ops n h = rw (h, sync_with_leader)

waiting_cons :
    (op : PendingOperation) (ops : List PendingOperation)
    → waiting_commands (op ∷ []) ++ waiting_commands ops ≡ waiting_commands (op ∷ ops)
waiting_cons op ops = elim (Bool-cases op.applied) [ inl e ↦ rw e refl | inr e ↦ rw e refl ]

sync-AllSynced :
    (base : Dict NodeState) (local : Node) (ops : List PendingOperation) (n : Node)
    → IsSound base n
    → is_leader n.role ≡ true
    → AllSynced base ops n (sync_with_leader local ops n)
unfolding pending_count
sync-AllSynced base local [] n s leads =
    unfold sync_with_leader in
    record {
      answer = refl;
      none_waits = refl;
      sound = s;
      leads = leads;
      grown = omega arith;
      sent = sym (append-nil (commands_of n.log));
    }
sync-AllSynced base local (op ∷ ops) n s leads =
    let one = sync_op-Synced base local op n s leads in
    let rest = sync-AllSynced base local ops (sync_op local op n).2 one.sound one.leads in
    rw (sync_cons local op ops n one.answer) (record {
      answer = rest.answer;
      none_waits = ground (arith, one.applied, rest.none_waits);
      sound = rest.sound;
      leads = rest.leads;
      grown = ground (arith, one.grown, rest.grown);
      sent =
          rest.sent
          ∙ ap (λ cs. cs ++ waiting_commands ops) one.sent
          ∙ append_assoc (commands_of n.log) (waiting_commands (op ∷ [])) (waiting_commands ops)
          ∙ ap (λ cs. commands_of n.log ++ cs) (waiting_cons op ops);
    })

-- Back online with a sound leader, the node sends every operation that waits: the loop raises
-- nothing, none is left waiting, the leader's log has one entry more for each, its commands are those
-- it had and then those of the waiting operations in their order, the leader is still sound, and the
-- node is a follower and online.
pub go_online_delivers :
    (base : Dict NodeState) (o : Offline) (leader : Node)
    → IsSound base leader
    → is_leader leader.role ≡ true
    → let (r, o', leader') = go_online o leader in
      (r ≡ ok tt)
      × (pending_count o'.pending ≡ 0)
      × (length leader'.log ≡ length leader.log + pending_count o.pending)
      × (commands_of leader'.log ≡ commands_of leader.log ++ waiting_commands o.pending)
      × IsSound base leader'
      × (o'.local_node.role ≡ NodeRole.follower)
      × (o'.is_offline ≡ false)
unfolding go_online
go_online_delivers base o leader s leads =
    let all =
      sync-AllSynced base (record o.local_node { role = NodeRole.reconnecting }) o.pending leader s
        leads in
    rw (all.answer, go_online) (refl, all.none_waits, all.grown, all.sent, all.sound, refl, refl)

-- Each operation names a run, as those that `apply_pending` keeps do.
abbrev pub HaveSlugs : List PendingOperation → Type 0
HaveSlugs [] = Unit
HaveSlugs (op ∷ ops) = ((slug : String) × (op.command.slug ≡ some slug)) × HaveSlugs ops

provide_merge_refused :
    (slug : String) (merged : NodeState) (n : Node)
    → is_leader n.role ≡ false
    → (provide_merge slug merged n).1 ≡ n
unfolding provide_merge
provide_merge_refused slug merged n h = rw (h, provide_merge)

offer_merge_refused :
    (local : Node) (c : Command) (slug : String) (n : Node)
    → c.slug ≡ some slug
    → is_leader n.role ≡ false
    → offer_merge local c n ≡ (ok tt, n)
unfolding offer_merge
offer_merge_refused local c slug n named h =
    elim (Option-cases (Dict.get local.state_machine slug)) [
      | inl missing ↦ rw (named, offer_merge) (rw (missing, offer_merge))
      | inr (mine, e) ↦ elim (Option-cases (Dict.get n.state_machine slug)) [
        | inl missing ↦ rw (named, offer_merge) (rw (e, offer_merge) (rw (missing, offer_merge)))
        | inr (theirs, e') ↦
            rw (named, offer_merge)
              (rw (e, offer_merge)
                (rw (e', offer_merge) (ap (λ m. (ok tt, m)) (provide_merge_refused slug _ n h))))
      ]
    ]

sync_op_refused :
    (local : Node) (op : PendingOperation) (slug : String) (n : Node)
    → op.command.slug ≡ some slug
    → is_leader n.role ≡ false
    → sync_op local op n ≡ (ok tt, op, n)
sync_op_refused local op slug n named h = elim (Bool-cases op.applied) [
  | inl old ↦ sync_op_old local op n old
  | inr waits ↦
      sync_op_waits local op n waits
      ∙ ap (after_propose local op) (propose_refused op.command n h)
      ∙ ap (λ r. (r.0, op, r.1)) (offer_merge_refused local op.command slug n named h)
]

-- At a node that does not lead, the loop changes nothing: each proposal is refused, and so is the
-- merge that is offered in its place, so no state of the offline node reaches the other.
pub sync_refused :
    (local : Node) (ops : List PendingOperation) (n : Node)
    → HaveSlugs ops
    → is_leader n.role ≡ false
    → sync_with_leader local ops n ≡ (ok tt, ops, n)
sync_refused local [] n named h = unfold sync_with_leader in refl
sync_refused local (op ∷ ops) n ((slug, named), rest) h =
    let one = sync_op_refused local op slug n named h in
    sync_cons local op ops n (ap (λ r. r.0) one)
    ∙ ap (λ r. (let (a, ops', m) = sync_with_leader local ops r.2 in (a, r.1 ∷ ops', m))) one
    ∙ ap (λ r. (r.0, op ∷ r.1, r.2)) (sync_refused local ops n rest h)

ensure-blank :
    (sm : Dict NodeState) (slug : String)
    → get_or (Dict.get (ensure sm slug) slug) blank ≡ get_or (Dict.get sm slug) blank
unfolding ensure
ensure-blank sm slug = ground (arith, get-put sm slug blank slug, eq_iff slug slug)

pending_count-append :
    (ops : List PendingOperation) (op : PendingOperation)
    → pending_count (ops ++ op ∷ []) ≡ pending_count ops + waiting op
unfolding pending_count
pending_count-append [] op = omega arith
pending_count-append (x ∷ ops) op = omega (arith, pending_count-append ops op)

-- A command for a run that is made offline waits with the version that the run had, and a
-- transition moves the local state at once and raises its version by one.
pub apply_pending_waits :
    (c : Command) (slug to : String) (o : Offline)
    → truthy c.slug ≡ some slug
    → is_type c "transition" ≡ true
    → c.to_state ≡ some to
    → let old = get_or (Dict.get o.local_node.state_machine slug) blank in
      let (s, o') = apply_pending c o in
      (s ≡ record { current_state = to; version = old.version + 1 })
      × (pending_count o'.pending ≡ pending_count o.pending + 1)
      × (Dict.get o'.local_node.state_machine slug ≡ some s)
unfolding apply_pending
apply_pending_waits c slug to o named move there =
    let sm = o.local_node.state_machine in
    let table = ensure sm slug in
    let written : NodeState = record {
      current_state = to;
      version = (get_or (Dict.get table slug) blank).version + 1;
    } in
    let stored : Dict.get (Dict.put table slug written) slug ≡ some written =
      simp (get-put, eq_refl) in
    rw (named, apply_pending)
      (rw move (
        rw there (
          rw stored (ap (λ (v : NodeState). raised_by_one v) (ensure-blank sm slug)),
          pending_count-append o.pending _,
          rw stored refl,
        )))
  where
    raised_by_one : NodeState → NodeState
    raised_by_one v = record { current_state = to; version = v.version + 1 }
