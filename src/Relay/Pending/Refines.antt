-- ===== src/Relay/Pending/Refines.antt =====
-- The store of pending registrations of crates/qvole-relay/src/relay.rs, and a plain map from a room
-- and a source to a registration.
use mathlib.Core.Path.{fun_ext}
use qvole_rs.Base.Map
use qvole_rs.Base.Map.{Map}
use qvole_rs.Base.{
  ℕ, ◌≡◌, refl, sym, ap, ◌∙◌, Bool, true, false, ◌&&◌, Option, none, some, List, [], ◌∷◌, arith,
  leb, ◌==◌, if◌then◌else◌, if_elim, Bytes, bytes_key, eqb, eqb-true, Bool-cases, Option-cases, inl,
  inr, ite,
}
use qvole_rs.Relay.Addr.{AddrText}
use qvole_rs.Relay.Room.{PendingReg}
use qvole_rs.Relay.Shards
use qvole_rs.Relay.Shards.{Shards}
use qvole_rs.Relay.Pending.{
  PendingStore, room_name, get_pending_reg, store_pending_reg, delete_pending_reg, or_empty,
  replaces, put_or_drop,
}

-- The abstract view: what is registered for a room and a source.
abbrev pub View : Type 0
View = Bytes → Bytes → Option PendingReg

pub data Op : Type 0 where
  store : Bytes → Bytes → PendingReg → Op
  delete : Bytes → Bytes → Op

-- An operation and its answer; a deletion answers nothing.
abbrev pub perform_op : AddrText → ℕ → Op → PendingStore → PendingStore × Bool
perform_op text max (Op.store room src p) s = store_pending_reg text s max room src p
perform_op text max (Op.delete room src) s = (delete_pending_reg text s room src, true)

abbrev pub put_at : Bytes → Bytes → Option PendingReg → View → View
put_at room src v view r x = if eqb room r && eqb src x then v else view r x

-- The same on the map: a store that is refused changes nothing.
abbrev pub specified : Op → Bool → View → View
specified (Op.store room src p) true view = put_at room src (some p) view
specified (Op.store room src p) false view = view
specified (Op.delete room src) answer view = put_at room src none view

abbrev pub run_ops : AddrText → ℕ → List Op → PendingStore → PendingStore × List Bool
run_ops text max [] s = (s, [])
run_ops text max (op ∷ ops) s =
    let r = perform_op text max op s in
    let rest = run_ops text max ops r.0 in (rest.0, r.1 ∷ rest.1)

abbrev pub specified_run : List Op → List Bool → View → View
specified_run [] answers view = view
specified_run (op ∷ ops) [] view = view
specified_run (op ∷ ops) (answer ∷ answers) view =
    specified_run ops answers (specified op answer view)

-- What is registered in a room's map.
abbrev in_room : Bytes → Option (Map Bytes PendingReg) → Option PendingReg
in_room x found = elim found [ none ↦ none | some rm ↦ Map.get x rm ]

in_room-or_empty :
    (x : Bytes) (found : Option (Map Bytes PendingReg))
    → Map.get x (or_empty found) ≡ in_room x found
in_room-or_empty x none = Map.get-empty x
in_room-or_empty x (some rm) = refl

abbrev flag {ℓ} : {A : Type ℓ} → Dec A → Bool
flag (yes _) = true
flag (no _) = false

-- A room's map replaced, seen from any room and source.
in_room-ite :
    {room r src x : Bytes} (d : Dec (room ≡ r)) (d' : Dec (src ≡ x))
    (found : Bytes → Option (Map Bytes PendingReg)) (o : Option (Map Bytes PendingReg))
    (v : Option PendingReg)
    → in_room x o ≡ ite d' v (in_room x (found room))
    → in_room x (ite d o (found r)) ≡ (if flag d && flag d' then v else in_room x (found r))
in_room-ite (yes a) (yes b) found o v h = h
in_room-ite {x = x} (yes a) (no b) found o v h = h ∙ ap (λ i. in_room x (found i)) a
in_room-ite (no a) d' found o v h = refl

len-zero_get : (x : Bytes) (m : Map Bytes PendingReg) → (Map.len m == 0) ≡ true → Map.get x m ≡ none
unfolding Map.len
len-zero_get x m h = elim (Option-cases (Map.get x m)) [
  | inl n ↦ n
  | inr (p, q) ↦ absurd (ground (arith, h, q, Map.weight-le-weigh (λ k v. 1) x m))
]

find-put_or_drop :
    (room r : Bytes) (rm : Map Bytes PendingReg) (s : Shards Bytes (Map Bytes PendingReg))
    → Shards.find room_name r (put_or_drop room rm s)
      ≡ ite
          (bytes_key.dec room r)
          (if Map.len rm == 0 then none else some rm)
          (Shards.find room_name r s)
find-put_or_drop room r rm s = elim (Bool-cases (Map.len rm == 0)) [
  | inl t ↦ rw t (Shards.find-delete room_name room r s)
  | inr f ↦ rw f (Shards.find-put room_name room r rm s)
]

in_room-drop :
    (x : Bytes) (m : Map Bytes PendingReg)
    → in_room x (if Map.len m == 0 then none else some m) ≡ Map.get x m
in_room-drop x m = elim (Bool-cases (Map.len m == 0)) [
  | inl t ↦ rw t (sym (len-zero_get x m t))
  | inr f ↦ rw f refl
]

get_pending_reg-in_room :
    (s : PendingStore) (sh : Shards Bytes (Map Bytes PendingReg)) (r x : Bytes)
    → s.pending_shards ≡ sh
    → get_pending_reg s r x ≡ in_room x (Shards.find room_name r sh)
unfolding get_pending_reg
get_pending_reg-in_room s sh r x e = ap (λ t. in_room x (Shards.find room_name r t)) e

get_pending_reg-put :
    (s : PendingStore) (room src : Bytes) (p : PendingReg) (r x : Bytes)
    → in_room x (
        Shards.find room_name r (
          Shards.put room_name room
            (Map.insert src p (or_empty (Shards.find room_name room s.pending_shards)))
            s.pending_shards))
      ≡ put_at room src (some p) (get_pending_reg s) r x
unfolding get_pending_reg
get_pending_reg-put s room src p r x =
    let found = λ (i : Bytes). Shards.find room_name i s.pending_shards in
    let m = Map.insert src p (or_empty (found room)) in
    let g = Map.get-insert src x p (or_empty (found room)) in
    let h = g ∙ ap (ite (bytes_key.dec src x) (some p)) (in_room-or_empty x (found room)) in
    ap (in_room x) (Shards.find-put room_name room r m s.pending_shards)
    ∙ in_room-ite (bytes_key.dec room r) (bytes_key.dec src x) found (some m) (some p) h

get_pending_reg-drop :
    (s : PendingStore) (room src : Bytes) (rm : Map Bytes PendingReg) (r x : Bytes)
    → Shards.find room_name room s.pending_shards ≡ some rm
    → in_room x (Shards.find room_name r (put_or_drop room (Map.remove src rm) s.pending_shards))
      ≡ put_at room src none (get_pending_reg s) r x
unfolding get_pending_reg
get_pending_reg-drop s room src rm r x e =
    let found = λ (i : Bytes). Shards.find room_name i s.pending_shards in
    let m = Map.remove src rm in
    let g = in_room-drop x m ∙ Map.get-remove src x rm in
    let h = g ∙ ap (λ o. ite (bytes_key.dec src x) none (in_room x o)) (sym e) in
    ap (in_room x) (find-put_or_drop room r m s.pending_shards)
    ∙ in_room-ite (bytes_key.dec room r) (bytes_key.dec src x) found
        (if Map.len m == 0 then none else some m) none h

put_at_none :
    (room src : Bytes) (view : View) (r x : Bytes)
    → view room src ≡ none
    → view r x ≡ put_at room src none view r x
put_at_none room src view r x h = elim (Bool-cases (eqb room r && eqb src x)) [
  | inl t ↦
      let e : room ≡ r = eqb-true room r (ground arith) in
      let e' : src ≡ x = eqb-true src x (ground arith) in rw t (rw (sym e, sym e') h)
  | inr f ↦ rw f refl
]

module _ (text : AddrText) (max : ℕ) where
  store-specified :
      (s : PendingStore) (room src : Bytes) (p : PendingReg) (r x : Bytes)
      → get_pending_reg (store_pending_reg text s max room src p).0 r x
        ≡ specified
            (Op.store room src p)
            (store_pending_reg text s max room src p).1
            (get_pending_reg s)
            r
            x
  unfolding store_pending_reg
  store-specified s room src p r x =
      let Q : PendingStore × Bool → Type 0 = λ a.
        get_pending_reg a.0 r x ≡ specified (Op.store room src p) a.1 (get_pending_reg s) r x in
      let put = get_pending_reg-put s room src p r x in
      if_elim Q (replaces (Shards.find room_name room s.pending_shards) src) _ _
        (λ t. get_pending_reg-in_room _ _ r x refl ∙ put)
        (λ f.
          if_elim Q (leb max s.pending_total) _ _ (λ t. refl)
            (λ f'. get_pending_reg-in_room _ _ r x refl ∙ put))

  delete-specified :
      (s : PendingStore) (room src : Bytes) (r x : Bytes)
      → get_pending_reg (delete_pending_reg text s room src) r x
        ≡ put_at room src none (get_pending_reg s) r x
  unfolding delete_pending_reg
  delete-specified s room src r x =
      elim (Option-cases (Shards.find room_name room s.pending_shards)) [
        | inl n ↦
            let e = get_pending_reg-in_room s s.pending_shards room src refl ∙ ap (in_room src) n in
            rw (delete_pending_reg, n) (put_at_none room src (get_pending_reg s) r x e)
        | inr (rm, q) ↦
            let dropped = get_pending_reg-drop s room src rm r x q in
            rw (delete_pending_reg, q)
              (if_elim
                (λ (t : PendingStore).
                  get_pending_reg t r x ≡ put_at room src none (get_pending_reg s) r x)
                (Map.contains src rm) _ _ (λ t. get_pending_reg-in_room _ _ r x refl ∙ dropped)
                (λ f. get_pending_reg-in_room _ _ r x refl ∙ dropped))
      ]

  perform_op-specified :
      (op : Op) (s : PendingStore)
      → get_pending_reg (perform_op text max op s).0
        ≡ specified op (perform_op text max op s).1 (get_pending_reg s)
  perform_op-specified (Op.store room src p) s =
      fun_ext (λ r. fun_ext (λ x. store-specified s room src p r x))
  perform_op-specified (Op.delete room src) s =
      fun_ext (λ r. fun_ext (λ x. delete-specified s room src r x))

  -- The pending store refines a map from rooms and sources to registrations: after any sequence of
  -- stores and deletions, from any store, get_pending_reg answers for every room and source as the
  -- map on which each accepted store writes one place, each refused store nothing, and each
  -- deletion clears one place.
  pub run_ops-specified :
      (ops : List Op) (s : PendingStore)
      → get_pending_reg (run_ops text max ops s).0
        ≡ specified_run ops (run_ops text max ops s).1 (get_pending_reg s)
  run_ops-specified [] s = refl
  run_ops-specified (op ∷ ops) s =
      let r = perform_op text max op s in
      run_ops-specified ops r.0
      ∙ ap (specified_run ops (run_ops text max ops r.0).1) (perform_op-specified op s)
