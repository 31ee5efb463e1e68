-- ===== src/Etcd/Answers.antt =====
-- The answers to the transactions of pkg/server/etcd/kv.go have the form that etcd promises: one
-- response for each operation of the branch that was taken.
use kubebrain.Base.{
  ℕ, ◌≡◌, ◌≢◌, ◌⊎◌, refl, inl, inr, List, [], ◌∷◌, Option, none, some, Bool, true, false,
  if◌then◌else◌, arith, Bool-cases, Option-cases, some_injective, ap, ◌∙◌, sym, subst,
}
use kubebrain.Base.Bytes.{Bytes}
use kubebrain.Range.{Result, reply, failed}
use kubebrain.Txn.{TxnResponse}
use kubebrain.Etcd.Message.{
  Compare, PutRequest, RequestOp, request_range, request_put, request_delete_range, request_txn,
  TxnRequest, ResponseOp, response_put, response_delete_range, response_range, EtcdTxnResponse,
}
use kubebrain.Etcd.Shim.{
  BackendApi, map_answer, create_response, delete_response, update_response, shim_create,
  shim_delete, shim_update, unsupported,
}
use kubebrain.Etcd.Kv.{
  create_of, is_create, delete_of, is_delete, update_of, is_update, compact_of, is_compact,
  compact_response, unsupported_transaction, Peers, leader_txn,
}

pub data OpKind : Type 0 where
  a_range a_put a_delete a_txn : OpKind

abbrev pub request_kinds : List RequestOp → List OpKind
request_kinds [] = []
request_kinds (request_range r ∷ ops) = a_range ∷ request_kinds ops
request_kinds (request_put r ∷ ops) = a_put ∷ request_kinds ops
request_kinds (request_delete_range key ∷ ops) = a_delete ∷ request_kinds ops
request_kinds (request_txn ∷ ops) = a_txn ∷ request_kinds ops

abbrev pub response_kinds : List ResponseOp → List OpKind
response_kinds [] = []
response_kinds (response_range r ∷ ops) = a_range ∷ response_kinds ops
response_kinds (response_put r ∷ ops) = a_put ∷ response_kinds ops
response_kinds (response_delete_range h n kvs ∷ ops) = a_delete ∷ response_kinds ops

-- The responses are those of the operations of the branch that was taken.
abbrev pub Answers : TxnRequest → EtcdTxnResponse → Type 0
Answers txn r =
    response_kinds r.responses ≡ request_kinds (if r.succeeded then txn.success else txn.failure)

delete_of-kinds :
    (cs : List Compare) (ss fs : List RequestOp) (x : ℕ × Bytes)
    → cs ≢ []
    → delete_of cs ss fs ≡ some x
    → (request_kinds ss ≡ a_delete ∷ []) × (request_kinds fs ≡ a_range ∷ [])
unfolding delete_of
delete_of-kinds [] ss fs x ne h = absurd (ne refl)
delete_of-kinds (c ∷ d ∷ cs) ss fs x ne h = ground (arith, h)
delete_of-kinds (c ∷ []) [] fs x ne h = ground (arith, h)
delete_of-kinds (c ∷ []) (request_range r ∷ ss) fs x ne h = ground (arith, h)
delete_of-kinds (c ∷ []) (request_put r ∷ ss) fs x ne h = ground (arith, h)
delete_of-kinds (c ∷ []) (request_txn ∷ ss) fs x ne h = ground (arith, h)
delete_of-kinds (c ∷ []) (request_delete_range k ∷ o ∷ ss) fs x ne h = ground (arith, h)
delete_of-kinds (c ∷ []) (request_delete_range k ∷ []) [] x ne h = ground (arith, h)
delete_of-kinds (c ∷ []) (request_delete_range k ∷ []) (request_put r ∷ fs) x ne h =
    ground (arith, h)
delete_of-kinds (c ∷ []) (request_delete_range k ∷ []) (request_delete_range r ∷ fs) x ne h =
    ground (arith, h)
delete_of-kinds (c ∷ []) (request_delete_range k ∷ []) (request_txn ∷ fs) x ne h = ground (arith, h)
delete_of-kinds (c ∷ []) (request_delete_range k ∷ []) (request_range r ∷ o ∷ fs) x ne h =
    ground (arith, h)
delete_of-kinds (c ∷ []) (request_delete_range k ∷ []) (request_range r ∷ []) x ne h = (refl, refl)

create_of-kinds :
    (cs : List Compare) (ss fs : List RequestOp) (x : PutRequest)
    → create_of cs ss fs ≡ some x
    → (request_kinds ss ≡ a_put ∷ []) × (request_kinds fs ≡ [])
unfolding create_of
create_of-kinds [] ss fs x h = ground (arith, h)
create_of-kinds (c ∷ d ∷ cs) ss fs x h = ground (arith, h)
create_of-kinds (c ∷ []) [] fs x h = ground (arith, h)
create_of-kinds (c ∷ []) (request_range r ∷ ss) fs x h = ground (arith, h)
create_of-kinds (c ∷ []) (request_delete_range r ∷ ss) fs x h = ground (arith, h)
create_of-kinds (c ∷ []) (request_txn ∷ ss) fs x h = ground (arith, h)
create_of-kinds (c ∷ []) (request_put k ∷ o ∷ ss) fs x h = ground (arith, h)
create_of-kinds (c ∷ []) (request_put k ∷ []) (f ∷ fs) x h = ground (arith, h)
create_of-kinds (c ∷ []) (request_put k ∷ []) [] x h = (refl, refl)

update_of-kinds :
    (cs : List Compare) (ss fs : List RequestOp) (x : ℕ × Bytes × Bytes × ℕ)
    → update_of cs ss fs ≡ some x
    → (request_kinds ss ≡ a_put ∷ []) × (request_kinds fs ≡ a_range ∷ [])
unfolding update_of
update_of-kinds [] ss fs x h = ground (arith, h)
update_of-kinds (c ∷ d ∷ cs) ss fs x h = ground (arith, h)
update_of-kinds (c ∷ []) [] fs x h = ground (arith, h)
update_of-kinds (c ∷ []) (request_range r ∷ ss) fs x h = ground (arith, h)
update_of-kinds (c ∷ []) (request_delete_range r ∷ ss) fs x h = ground (arith, h)
update_of-kinds (c ∷ []) (request_txn ∷ ss) fs x h = ground (arith, h)
update_of-kinds (c ∷ []) (request_put k ∷ o ∷ ss) fs x h = ground (arith, h)
update_of-kinds (c ∷ []) (request_put k ∷ []) [] x h = ground (arith, h)
update_of-kinds (c ∷ []) (request_put k ∷ []) (request_put r ∷ fs) x h = ground (arith, h)
update_of-kinds (c ∷ []) (request_put k ∷ []) (request_delete_range r ∷ fs) x h = ground (arith, h)
update_of-kinds (c ∷ []) (request_put k ∷ []) (request_txn ∷ fs) x h = ground (arith, h)
update_of-kinds (c ∷ []) (request_put k ∷ []) (request_range r ∷ o ∷ fs) x h = ground (arith, h)
update_of-kinds (c ∷ []) (request_put k ∷ []) (request_range r ∷ []) x h = (refl, refl)

compact_of-kinds :
    (cs : List Compare) (ss fs : List RequestOp)
    → compact_of cs ss fs ≡ true
    → (request_kinds ss ≡ a_put ∷ []) × (request_kinds fs ≡ a_range ∷ [])
unfolding compact_of
compact_of-kinds [] ss fs h = ground (arith, h)
compact_of-kinds (c ∷ d ∷ cs) ss fs h = ground (arith, h)
compact_of-kinds (c ∷ []) [] fs h = ground (arith, h)
compact_of-kinds (c ∷ []) (request_range r ∷ ss) fs h = ground (arith, h)
compact_of-kinds (c ∷ []) (request_delete_range r ∷ ss) fs h = ground (arith, h)
compact_of-kinds (c ∷ []) (request_txn ∷ ss) fs h = ground (arith, h)
compact_of-kinds (c ∷ []) (request_put k ∷ o ∷ ss) fs h = ground (arith, h)
compact_of-kinds (c ∷ []) (request_put k ∷ []) [] h = ground (arith, h)
compact_of-kinds (c ∷ []) (request_put k ∷ []) (request_put r ∷ fs) h = ground (arith, h)
compact_of-kinds (c ∷ []) (request_put k ∷ []) (request_delete_range r ∷ fs) h = ground (arith, h)
compact_of-kinds (c ∷ []) (request_put k ∷ []) (request_txn ∷ fs) h = ground (arith, h)
compact_of-kinds (c ∷ []) (request_put k ∷ []) (request_range r ∷ o ∷ fs) h = ground (arith, h)
compact_of-kinds (c ∷ []) (request_put k ∷ []) (request_range r ∷ []) h = (refl, refl)

-- An answer that is a reply was made of one.
map_answer-reply :
    {A B S : Type 0} (f : A → B) (o : Option (Result A × S)) (b : B) (s : S)
    → map_answer f o ≡ some (reply b, s)
    → (a : A) × (f a ≡ b)
map_answer-reply f none b s h = ground (arith, h)
map_answer-reply f (some (reply a, s')) b s h =
    (a, ap (λ r. elim r [ reply x ↦ x | failed e ↦ b ]) (ap (λ x. x.0) (some_injective h)))
map_answer-reply f (some (failed e, s')) b s h = ground (arith, h)

not_refused :
    {A S : Type 0} (b : Bool) (o : Option (Result A × S)) (s s' : S) (a : A)
    → (if b then some (failed unsupported, s) else o) ≡ some (reply a, s')
    → o ≡ some (reply a, s')
not_refused true o s s' a h = ground (arith, h)
not_refused false o s s' a h = h

-- The kinds of the responses that the shim makes.
create_response-kinds :
    (txn : TxnRequest) (put : PutRequest) (x : TxnResponse)
    → is_create txn ≡ some put
    → (create_response x).succeeded ≡ true
    → Answers txn (create_response x)
unfolding is_create create_response
create_response-kinds txn put x c ok =
    rw ok (sym (create_of-kinds txn.compare txn.success txn.failure put c).0)

delete_response-kinds :
    (txn : TxnRequest) (d : ℕ × Bytes) (x : TxnResponse)
    → txn.compare ≢ []
    → is_delete txn ≡ some d
    → Answers txn (delete_response x)
unfolding is_delete delete_response
delete_response-kinds txn d x ne h = elim (Bool-cases x.succeeded) [
  | inl ok ↦ rw ok (sym (delete_of-kinds txn.compare txn.success txn.failure d ne h).0)
  | inr failed_ ↦ rw failed_ (sym (delete_of-kinds txn.compare txn.success txn.failure d ne h).1)
]

update_response-kinds :
    (txn : TxnRequest) (u : ℕ × Bytes × Bytes × ℕ) (x : TxnResponse)
    → is_update txn ≡ some u
    → Answers txn (update_response x)
unfolding is_update update_response
update_response-kinds txn u x h = elim (Bool-cases x.succeeded) [
  | inl ok ↦ rw ok (sym (update_of-kinds txn.compare txn.success txn.failure u h).0)
  | inr failed_ ↦ rw failed_ (sym (update_of-kinds txn.compare txn.success txn.failure u h).1)
]

compact_response-kinds : (txn : TxnRequest) → is_compact txn ≡ true → Answers txn compact_response
unfolding is_compact
compact_response-kinds txn h = sym (compact_of-kinds txn.compare txn.success txn.failure h).1

module _ (B : BackendApi) where
  shim_create-reply :
      (put : PutRequest) (s s' : B.State) (r : EtcdTxnResponse)
      → shim_create B put s ≡ some (reply r, s')
      → (x : TxnResponse) × (create_response x ≡ r)
  unfolding shim_create
  shim_create-reply put s s' r h =
      map_answer-reply create_response (B.create put.key put.value put.lease s) r s' (
        not_refused put.prev_kv _ s s' r
          (not_refused put.ignore_value _ s s' r (not_refused put.ignore_lease _ s s' r h)))

  module _ (peers : Peers B.State) where
    created :
        (txn : TxnRequest) (put : PutRequest) (s s' : B.State) (r : EtcdTxnResponse)
        → is_create txn ≡ some put
        → leader_txn B peers txn s ≡ some (reply r, s')
        → r.succeeded ≡ true
        → Answers txn r
    unfolding leader_txn
    created txn put s s' r c h ok =
        let (x, e) = shim_create-reply put s s' r (sym (rw (leader_txn, c) refl) ∙ h) in
        subst (λ y. y.succeeded ≡ true → Answers txn y) e (create_response-kinds txn put x c) ok

    compacted :
        (txn : TxnRequest) (b : Bool) (s s' : B.State) (r : EtcdTxnResponse)
        → is_compact txn ≡ b
        → (if◌then◌else◌ {A = Option (Result EtcdTxnResponse × B.State)} b
            (some (reply compact_response, s))
            (some (failed unsupported_transaction, s)))
          ≡ some (reply r, s')
        → Answers txn r
    compacted txn true s s' r c h =
        subst (Answers txn)
          (ap (λ o. elim o [ none ↦ r | some p ↦ elim p.0 [ reply y ↦ y | failed e' ↦ r ] ]) h)
          (compact_response-kinds txn c)
    compacted txn false s s' r c h = ground (arith, h)

    not_created :
        (txn : TxnRequest) (s s' : B.State) (r : EtcdTxnResponse)
        → txn.compare ≢ []
        → is_create txn ≡ none
        → leader_txn B peers txn s ≡ some (reply r, s')
        → Answers txn r
    unfolding leader_txn shim_delete shim_update
    not_created txn s s' r ne c h = elim (Option-cases (is_delete txn)) [
      | inr d ↦
          let (x, e) =
            map_answer-reply delete_response (B.delete d.0.1 d.0.0 s) r s'
              (sym (rw (leader_txn, c, d.1) refl) ∙ h) in
          subst (Answers txn) e (delete_response-kinds txn d.0 x ne d.1)
      | inl nd ↦ elim (Option-cases (is_update txn)) [
        | inr u ↦
            let (x, e) =
              map_answer-reply update_response (B.update u.0.1 u.0.2 u.0.0 u.0.3 s) r s'
                (sym (rw (leader_txn, c, nd, u.1) refl) ∙ h) in
            subst (Answers txn) e (update_response-kinds txn u.0 x u.1)
        | inl nu ↦
            compacted txn (is_compact txn) s s' r refl (sym (rw (leader_txn, c, nd, nu) refl) ∙ h)
      ]
    ]

    -- A transaction on the leader that compares something and is answered with a reply, whatever the
    -- backend answered: if it succeeded, or is not a create, then the reply has one response for each
    -- operation of the branch that was taken, of its kind and in order.
    pub leader_txn-Answers :
        (txn : TxnRequest) (s s' : B.State) (r : EtcdTxnResponse)
        → txn.compare ≢ []
        → leader_txn B peers txn s ≡ some (reply r, s')
        → (r.succeeded ≡ true) ⊎ (is_create txn ≡ none)
        → Answers txn r
    leader_txn-Answers txn s s' r ne h w = elim (Option-cases (is_create txn)) [
      | inl c ↦ not_created txn s s' r ne c h
      | inr c ↦ elim w [
        | inl ok ↦ created txn c.0 s s' r c.1 h ok
        | inr c' ↦ absurd (ground (arith, c.1, c'))
      ]
    ]
