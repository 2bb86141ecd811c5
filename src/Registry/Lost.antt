-- ===== src/Registry/Lost.antt =====
-- The count of lost packets of `NodeRegistry.mark_seen` (backend/state.py).
use network_backend_article.Base.{
  ℕ, suc, String, some, List, [], ◌∷◌, arith, ◌≡◌, refl, ap, ◌∙◌, length, eq_iff,
}
use network_backend_article.Base.Int.{
  ℤ, pos, pos_part, neg_part, ◌+ℤ◌, ◌-ℤ◌, ◌<ℤ◌, +ℤ_parts, -ℤ_parts, eq_of_parts,
}
use network_backend_article.Base.Dict.{lookup, assign_key, lookup-assign_key}
use network_backend_article.Registry.{
  NodeRegistry, NodeStatus, status_of, mark_seen, write_status, lost_between, next_seq,
}

-- The messages of one node, each with its number and the time of its reception.
unfoldable pub mark_all : String → List (ℤ × ℕ) → NodeRegistry → NodeRegistry
mark_all node [] r = r
mark_all node ((seq, now) ∷ xs) r = mark_all node xs (mark_seen node (some seq) now r).2

-- The numbers rise from `prev` on.
abbrev pub IsRising : ℤ → List (ℤ × ℕ) → Type 0
IsRising prev [] = Unit
IsRising prev ((seq, now) ∷ xs) = (prev <ℤ seq) × IsRising seq xs

abbrev pub newest : ℤ → List (ℤ × ℕ) → ℤ
newest prev [] = prev
newest prev ((seq, now) ∷ xs) = newest seq xs

lost_between-rising :
    (prev seq : ℤ) → prev <ℤ seq → lost_between (some prev) seq +ℤ pos 1 ≡ seq -ℤ prev
unfolding lost_between
lost_between-rising prev seq lt = ground (
  arith,
  +ℤ_parts prev (pos 1),
  -ℤ_parts seq prev,
  -ℤ_parts (seq -ℤ prev) (pos 1),
  +ℤ_parts (seq -ℤ prev -ℤ pos 1) (pos 1),
  +ℤ_parts (pos 0) (pos 1),
  eq_of_parts (seq -ℤ prev -ℤ pos 1 +ℤ pos 1) (seq -ℤ prev),
  eq_of_parts (pos 0 +ℤ pos 1) (seq -ℤ prev),
)

lookup_own :
    {V : Type 0} (k j : String) (v : V) (d : List (String × V))
    → k ≡ j
    → lookup j (assign_key k v d) ≡ some v
lookup_own k j v d e = ground (arith, lookup-assign_key k j v d, eq_iff k j)

next_seq-rising : (prev seq : ℤ) → prev <ℤ seq → next_seq (some prev) seq ≡ seq
unfolding next_seq
next_seq-rising prev seq lt = ground arith

status_of-write_status :
    (node : String) (s : NodeStatus) (r : NodeRegistry)
    → s.node_id ≡ node
    → status_of node (write_status s r) ≡ s
status_of-write_status node s r e = rw (lookup_own s.node_id node s r.nodes e, status_of) refl

no_message : (lost prev : ℤ) → lost +ℤ pos 0 ≡ lost +ℤ (prev -ℤ prev)
no_message lost prev =
    eq_of_parts _ _
      (omega (arith, +ℤ_parts lost (pos 0), -ℤ_parts prev prev, +ℤ_parts lost (prev -ℤ prev)))

-- The arithmetic of one message more.
one_more :
    (lost gap prev seq last : ℤ) (n : ℕ) (after final : ℤ)
    → after ≡ lost +ℤ gap
    → gap +ℤ pos 1 ≡ seq -ℤ prev
    → final +ℤ pos n ≡ after +ℤ (last -ℤ seq)
    → final +ℤ pos (suc n) ≡ lost +ℤ (last -ℤ prev)
one_more lost gap prev seq last n after final e one rest = eq_of_parts _ _ (
    omega (
      arith,
      ap pos_part e,
      ap neg_part e,
      ap pos_part one,
      ap neg_part one,
      ap pos_part rest,
      ap neg_part rest,
      +ℤ_parts lost gap,
      +ℤ_parts gap (pos 1),
      -ℤ_parts seq prev,
      +ℤ_parts final (pos n),
      -ℤ_parts last seq,
      +ℤ_parts after (last -ℤ seq),
      +ℤ_parts final (pos (suc n)),
      -ℤ_parts last prev,
      +ℤ_parts lost (last -ℤ prev),
    ))

-- One message with a higher number.
seen_step :
    (node : String) (prev seq : ℤ) (now : ℕ) (r : NodeRegistry)
    → (status_of node r).node_id ≡ node
    → lookup node r.last_seq ≡ some prev
    → prev <ℤ seq
    → (lookup node (mark_seen node (some seq) now r).2.last_seq ≡ some seq)
      × ((status_of node (mark_seen node (some seq) now r).2).node_id ≡ node)
      × ((status_of node (mark_seen node (some seq) now r).2).lost_packets
          ≡ (status_of node r).lost_packets +ℤ lost_between (some prev) seq)
unfolding mark_seen
seen_step node prev seq now r filed known lt =
    let before = ap (λ k. lookup k r.last_seq) filed ∙ known in
    (
      lookup_own _ node _ r.last_seq filed
          ∙ (ap (λ o. some (next_seq o seq)) before ∙ ap some (next_seq-rising prev seq lt)),
      ap (λ u. u.node_id) (status_of-write_status node _ r filed) ∙ filed,
      ap (λ u. u.lost_packets) (status_of-write_status node _ r filed)
          ∙ ap (λ o. (status_of node r).lost_packets +ℤ lost_between o seq) before,
    )

-- The packets counted as lost and the messages that came are together as many as the numbers rose:
-- of messages of one node with rising numbers, each number left out is counted exactly once.
pub mark_all-counts_lost :
    (node : String) (prev : ℤ) (xs : List (ℤ × ℕ)) (r : NodeRegistry)
    → (status_of node r).node_id ≡ node
    → lookup node r.last_seq ≡ some prev
    → IsRising prev xs
    → (status_of node (mark_all node xs r)).lost_packets +ℤ pos (length xs)
      ≡ (status_of node r).lost_packets +ℤ (newest prev xs -ℤ prev)
unfolding mark_all
mark_all-counts_lost node prev [] r filed known rising =
    no_message (status_of node r).lost_packets prev
mark_all-counts_lost node prev ((seq, now) ∷ xs) r filed known (lt, rising) =
    let (known', filed', counted) = seen_step node prev seq now r filed known lt in
    let rest =
      mark_all-counts_lost node seq xs (mark_seen node (some seq) now r).2 filed' known' rising in
    one_more (status_of node r).lost_packets (lost_between (some prev) seq) prev seq (newest seq xs)
      (length xs) _ _ counted (lost_between-rising prev seq lt) rest
