-- ===== src/Lifecycle/Active.antt =====
-- The active version of an object against the state of its versions, through every operation.
use manage_call_ai.Base.{
  ℕ, String, ◌≡◌, refl, sym, ap, ◌∙◌, subst, inl, inr, Bool, true, false, ◌&&◌, List, [], ◌∷◌, find,
  map, All, Option, none, some, if◌then◌else◌, arith, str_eq, eq_iff, str_eq_sym, Bool-cases,
  if_elim,
}
use manage_call_ai.Lifecycle.Types.{State, Version, Object, ActionType, AuditAction, Store}
use manage_call_ai.Lifecycle.Tables.{
  of_object, is_row, is_published, is_object, set_active, publish_row, retire_row, Trigger,
  switch_version, publish_version, publish_found, rollback_to, rollback_version, find_version_by_id,
  rollback_target,
}

abbrev pub find_object : String → String → List Object → Option Object
find_object id tenant_id objects = find (is_object id tenant_id) objects

abbrev pub names : Option String → String → Bool
names none id = false
names (some x) id = str_eq x id

abbrev pub names_active : Option Object → String → Bool
names_active none id = false
names_active (some o) id = names o.active_version_id id

-- The object of a version names it as the active one.
abbrev pub is_active : List Object → Version → Bool
is_active objects v = names_active (find_object v.object_id v.tenant_id objects) v.id

abbrev pub ExistsObject : Option Object → Type 0
ExistsObject none = ⊥
ExistsObject (some o) = Unit

-- The version's object exists, and names it as the active one just if it is published.
pub record IsAgreed (objects : List Object) (v : Version) : Type 0 where
  pub object : ExistsObject (find_object v.object_id v.tenant_id objects)
  pub active : is_published v.state ≡ is_active objects v

-- The versions and the objects agree.
abbrev pub IsConsistent : Store → Type 0
IsConsistent st = All (IsAgreed st.objects) st.versions

pub All-map_rows {ℓ} :
    {A : Type ℓ} (P Q : A → Type 0) (f : A → A) (k : (a : A) → P a → Q (f a)) (xs : List A)
    → All P xs
    → All Q (map f xs)
All-map_rows P Q f k [] h = tt
All-map_rows P Q f k (x ∷ xs) h = (k x h.0, All-map_rows P Q f k xs h.1)

abbrev pub mapped : (Object → Object) → Option Object → Option Object
mapped f none = none
mapped f (some o) = some (f o)

pub find_object-map :
    (f : Object → Object) (id tenant_id : String)
    → ((o : Object) → is_object id tenant_id (f o) ≡ is_object id tenant_id o)
    → (objects : List Object)
    → find_object id tenant_id (map f objects) ≡ mapped f (find_object id tenant_id objects)
find_object-map f id tenant_id same [] = refl
find_object-map f id tenant_id same (o ∷ objects) =
    rw (same o, find_object-map f id tenant_id same objects) (split (is_object id tenant_id o))
  where
    split :
        (b : Bool)
        → (if b then some (f o) else mapped f (find_object id tenant_id objects))
          ≡ mapped f (if b then some o else find_object id tenant_id objects)
    split true = refl
    split false = refl

find_object-is_object :
    (id tenant_id : String) (objects : List Object) (o : Object)
    → find_object id tenant_id objects ≡ some o
    → is_object id tenant_id o ≡ true
find_object-is_object id tenant_id [] o h = cc
find_object-is_object id tenant_id (x ∷ objects) o h =
    elim (Bool-cases (is_object id tenant_id x)) [
      | inl e ↦
          let same : some x ≡ some o = rw e at h in
          let x-o : x ≡ o = cc in subst (λ y. is_object id tenant_id y ≡ true) x-o e
      | inr ne ↦ find_object-is_object id tenant_id objects o (rw ne at h)
    ]

set_active-same :
    (vid object_id tenant_id id tenant : String) (o : Object)
    → is_object id tenant (set_active vid object_id tenant_id o) ≡ is_object id tenant o
unfolding set_active is_object
set_active-same vid object_id tenant_id id tenant o = ground arith

-- Which version an object names once it has been set.
names_set :
    (vid object_id tenant_id : String) (v : Version) (o : Object)
    → is_object v.object_id v.tenant_id o ≡ true
    → names (set_active vid object_id tenant_id o).active_version_id v.id ≡ (
        if of_object object_id tenant_id v then str_eq vid v.id else names o.active_version_id v.id)
unfolding set_active is_object of_object
names_set vid object_id tenant_id v o h =
    ground (arith, eq_iff o.id v.object_id, eq_iff o.tenant_id v.tenant_id, h)

module _ (vid object_id tenant_id : String) (objects : List Object) where
  found_after :
      (v : Version) (o : Option Object)
      → find_object v.object_id v.tenant_id objects ≡ o
      → ExistsObject o
      → names_active (mapped (set_active vid object_id tenant_id) o) v.id
        ≡ (if of_object object_id tenant_id v then str_eq vid v.id else names_active o v.id)
  found_after v none e x = absurd x
  found_after v (some o) e x =
      names_set vid object_id tenant_id v o
        (find_object-is_object v.object_id v.tenant_id objects o e)

  exists_after :
      (f : Object → Object) (o : Option Object) → ExistsObject o → ExistsObject (mapped f o)
  exists_after f none x = x
  exists_after f (some o) x = tt

  find_after :
      (v : Version)
      → find_object v.object_id v.tenant_id (map (set_active vid object_id tenant_id) objects)
        ≡ mapped (set_active vid object_id tenant_id) (find_object v.object_id v.tenant_id objects)
  find_after v =
      find_object-map (set_active vid object_id tenant_id) v.object_id v.tenant_id
        (set_active-same vid object_id tenant_id v.object_id v.tenant_id) objects

  is_active_after :
      (v : Version)
      → IsAgreed objects v
      → is_active (map (set_active vid object_id tenant_id) objects) v
        ≡ (if of_object object_id tenant_id v then str_eq vid v.id else is_active objects v)
  is_active_after v h = ap (λ o. names_active o v.id) (find_after v) ∙ found_after v _ refl h.object

-- The columns that no update changes.
abbrev pub IsSameRow : Version → Version → Type 0
IsSameRow v w = (w.id ≡ v.id) × (w.object_id ≡ v.object_id) × (w.tenant_id ≡ v.tenant_id)

pub IsAgreed-same :
    (objects : List Object) (v w : Version)
    → IsSameRow v w
    → ExistsObject (find_object v.object_id v.tenant_id objects)
    → is_published w.state ≡ is_active objects v
    → IsAgreed objects w
IsAgreed-same objects v w r x e = record {
  object = rw (r.1, r.2) x;
  active = e ∙ rw (r.0, r.1, r.2) refl;
}

module _ (retired : State) (not_published : is_published retired ≡ false)
    (vid object_id tenant_id : String) (now : ℕ) where
  abbrev switched : Version → Version
  switched v = publish_row vid object_id tenant_id now (retire_row retired object_id tenant_id v)

  switched-published :
      (v : Version)
      → is_published (switched v).state
        ≡ (if of_object object_id tenant_id v then str_eq vid v.id else is_published v.state)
  unfolding publish_row retire_row is_row of_object
  switched-published v = ground (arith, not_published, str_eq_sym vid v.id)

  retire_row-same : (v : Version) → IsSameRow v (retire_row retired object_id tenant_id v)
  unfolding retire_row
  retire_row-same v =
      if_elim (IsSameRow v) (of_object object_id tenant_id v && is_published v.state)
        (refl, refl, refl) (refl, refl, refl)

  publish_row-same : (v : Version) → IsSameRow v (publish_row vid object_id tenant_id now v)
  unfolding publish_row
  publish_row-same v =
      if_elim (IsSameRow v) (is_row vid object_id tenant_id v) (refl, refl, refl) (refl, refl, refl)

  switched-same : (v : Version) → IsSameRow v (switched v)
  switched-same v =
      let a = retire_row-same v in
      let b = publish_row-same (retire_row retired object_id tenant_id v) in
      (b.0 ∙ a.0, b.1 ∙ a.1, b.2 ∙ a.2)

  switched-IsAgreed :
      (objects : List Object) (v : Version)
      → IsAgreed objects v
      → IsAgreed (map (set_active vid object_id tenant_id) objects) (switched v)
  switched-IsAgreed objects v h =
      IsAgreed-same (map (set_active vid object_id tenant_id) objects) v (switched v)
        (switched-same v)
        (rw (find_after vid object_id tenant_id objects v) (
          exists_after vid object_id tenant_id objects (set_active vid object_id tenant_id) _
            h.object))
        (switched-published v
          ∙ rw h.active refl
          ∙ sym (is_active_after vid object_id tenant_id objects v h))

  pub switch_version-IsConsistent :
      (t : Trigger) (action : ActionType) (audit : AuditAction) (st : Store)
      → IsConsistent st
      → IsConsistent (switch_version object_id tenant_id t now retired action audit vid st)
  unfolding switch_version
  switch_version-IsConsistent t action audit st h =
      All-map_rows (λ w. IsAgreed objects' (publish_row vid object_id tenant_id now w))
        (IsAgreed objects') (publish_row vid object_id tenant_id now) (λ w k. k)
        (map (retire_row retired object_id tenant_id) st.versions)
        (All-map_rows (IsAgreed st.objects)
          (λ w. IsAgreed objects' (publish_row vid object_id tenant_id now w))
          (retire_row retired object_id tenant_id) (switched-IsAgreed st.objects) st.versions h)
    where
      objects' : List Object
      objects' = map (set_active vid object_id tenant_id) st.objects

pub publish_version_found :
    (object_id tenant_id : String) (t : Trigger) (now : ℕ) (id : String) (st : Store) (v : Version)
    → find_version_by_id id object_id tenant_id st.versions ≡ some v
    → publish_version object_id tenant_id t now id st
      ≡ some (
          switch_version object_id tenant_id t now State.superseded ActionType.publish
            AuditAction.published id st)
unfolding publish_version publish_found
publish_version_found object_id tenant_id t now id st v f = rw f refl

-- A publication keeps the objects and versions in agreement.
pub publish_version-IsConsistent :
    (object_id tenant_id : String) (t : Trigger) (now : ℕ) (id : String) (st st' : Store)
    → publish_version object_id tenant_id t now id st ≡ some st'
    → IsConsistent st
    → IsConsistent st'
unfolding publish_version publish_found
publish_version-IsConsistent object_id tenant_id t now id st st' e h =
    of_version (find_version_by_id id object_id tenant_id st.versions) e
  where
    of_version :
        (o : Option Version)
        → publish_found object_id tenant_id t now id o st ≡ some st'
        → IsConsistent st'
    of_version none e' = cc
    of_version (some v) e' =
        let same : switch_version object_id tenant_id t now State.superseded ActionType.publish
              AuditAction.published id st
            ≡ st' =
          cc in
        subst IsConsistent same (
          switch_version-IsConsistent State.superseded refl id object_id tenant_id now t
            ActionType.publish AuditAction.published st h)

-- A rollback does too.
pub rollback_version-IsConsistent :
    (object_id tenant_id : String) (t : Trigger) (now : ℕ) (st st' : Store)
    → rollback_version object_id tenant_id t now st ≡ some st'
    → IsConsistent st
    → IsConsistent st'
unfolding rollback_version rollback_to
rollback_version-IsConsistent object_id tenant_id t now st st' e h =
    of_version (rollback_target object_id tenant_id t now st) e
  where
    of_version :
        (o : Option Version)
        → rollback_to object_id tenant_id t now o st ≡ some st'
        → IsConsistent st'
    of_version none e' = cc
    of_version (some v) e' =
        let same : switch_version object_id tenant_id t now State.rolled_back ActionType.rollback
              AuditAction.rolled_back v.id st
            ≡ st' =
          cc in
        subst IsConsistent same (
          switch_version-IsConsistent State.rolled_back refl v.id object_id tenant_id now t
            ActionType.rollback AuditAction.rolled_back st h)
