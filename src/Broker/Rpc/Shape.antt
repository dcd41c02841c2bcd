-- ===== src/Broker/Rpc/Shape.antt =====
-- Which requests have the right shape, broker/rpc.py.
use codex_cursor_devstack.Base.{
  ◌≡◌, refl, sym, ap, ◌∙◌, ◌↔◌, String, Bool, true, Option, none, some, List, contains, Bool-cases,
  inl, inr, Error, ok, err, >>=-eq-ok, guard-eq-ok, ok-injective, ◌>>=◌, arith,
}
use mathlib.Core.Path.{subst}
use codex_cursor_devstack.Base.Value.{Value, Fields, Key, lookup}
use codex_cursor_devstack.Broker.Rpc.{
  allowed_ops, find, request_fields, fields_within, read_op, fields_of, validate_request_shape,
}
use codex_cursor_devstack.Broker.Rpc.Grid.{
  is_operation, carries, find-Describes, request_fields-Describes, allowed_ops-is_operation,
  allowed-some,
}

-- Each key is a text with the property.
abbrev pub AllKeys : (String → Type 0) → Fields → Type 0
AllKeys P Fields.end = Unit
AllKeys P (Fields.entry (Key.name k) v rest) = P k × AllKeys P rest
AllKeys P (Fields.entry (Key.other n) v rest) = ⊥

pub record IsWellShaped (req : Fields) (op : String) : Type 0 where
  pub names_op : lookup "op" req ≡ some (Value.text op)
  pub operation : is_operation op ≡ true
  pub only_these : AllKeys (λ k. carries k op ≡ true) req

fields_within-AllKeys :
    (fields : List String) (P : String → Bool) (req : Fields)
    → ((k : String) → contains fields k ≡ P k)
    → (fields_within fields req ≡ true) ↔ AllKeys (λ k. P k ≡ true) req
unfolding fields_within
fields_within-AllKeys fields P Fields.end same = (λ h. tt, λ h. refl)
fields_within-AllKeys fields P (Fields.entry (Key.name k) v rest) same =
    let rest_same = fields_within-AllKeys fields P rest same in
    (
      λ h. (sym (same k) ∙ ground arith, rest_same.0 (ground arith)),
      λ h. rw (same k ∙ h.0) (rest_same.1 h.1),
    )
fields_within-AllKeys fields P (Fields.entry (Key.other n) v rest) same = (λ h. cc, λ h. elim h [ ])

read_op-eq-ok :
    (found : Option Value) (op : String)
    → read_op found ≡ ok op
    → (found ≡ some (Value.text op)) × (contains allowed_ops op ≡ true)
unfolding read_op
read_op-eq-ok (some (Value.text name)) op h = elim (Bool-cases (contains allowed_ops name)) [
  | inl allowed ↦
      let same : name ≡ op = ground arith in
      (ap (λ n. some (Value.text n)) same, ap (contains allowed_ops) (sym same) ∙ allowed)
  | inr other ↦ ground arith
]
read_op-eq-ok (some (Value.list items)) op h = cc
read_op-eq-ok (some (Value.object fields)) op h = cc
read_op-eq-ok (some Value.null) op h = cc
read_op-eq-ok (some (Value.boolean b)) op h = cc
read_op-eq-ok (some (Value.int i)) op h = cc
read_op-eq-ok (some (Value.float f)) op h = cc
read_op-eq-ok none op h = cc

fields_of-eq-ok :
    (op : String) (fields : List String)
    → fields_of op ≡ ok fields
    → find op request_fields ≡ some fields
unfolding fields_of
fields_of-eq-ok op fields h = from _ refl h
  where
    from :
        (found : Option (List String))
        → find op request_fields ≡ found
        → (elim found [ none ↦ err (Error.key_error op) | some ns ↦ ok ns ]) ≡ ok fields
        → find op request_fields ≡ some fields
    from (some ns) e k = e ∙ ap some (ok-injective ns fields k)
    from none e k = cc

fields_of-some :
    (op : String) (fields : List String)
    → find op request_fields ≡ some fields
    → fields_of op ≡ ok fields
unfolding fields_of
fields_of-some op fields h =
    ap (λ found. elim found [ none ↦ err (Error.key_error op) | some ns ↦ ok ns ]) h

shape_sound :
    (req : Fields) (op : String) → validate_request_shape req ≡ ok op → IsWellShaped req op
unfolding validate_request_shape
shape_sound req op h =
    let (name, read, rest) = >>=-eq-ok _ _ h in
    let (fields, found, checked) = >>=-eq-ok _ _ rest in
    let (within, same) = guard-eq-ok _ _ _ checked in
    let (named, allowed) = read_op-eq-ok _ name read in
    let described =
      find-Describes request_fields name fields request_fields-Describes
        (fields_of-eq-ok name fields found) in
    subst (IsWellShaped req) (ok-injective name op same) (record {
      names_op = named;
      operation = sym (allowed_ops-is_operation name) ∙ allowed;
      only_these = (fields_within-AllKeys fields (λ k. carries k name) req described).0 within;
    })

shape_complete :
    (req : Fields) (op : String) → IsWellShaped req op → validate_request_shape req ≡ ok op
unfolding validate_request_shape read_op ◌>>=◌
shape_complete req op w =
    let allowed = allowed_ops-is_operation op ∙ w.operation in
    let (fields, found) = allowed-some op allowed in
    let described = find-Describes request_fields op fields request_fields-Describes found in
    let within = (fields_within-AllKeys fields (λ k. carries k op) req described).1 w.only_these in
    rw (w.names_op, allowed, fields_of-some op fields found, within) refl

-- A request is accepted, as one for an operation, exactly if its `op` is the text of that operation
-- and each of its keys is a field that the operation takes.
pub validate_request_shape-IsWellShaped :
    (req : Fields) (op : String) → (validate_request_shape req ≡ ok op) ↔ IsWellShaped req op
validate_request_shape-IsWellShaped req op = (shape_sound req op, shape_complete req op)
