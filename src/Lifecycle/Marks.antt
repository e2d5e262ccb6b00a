-- ===== src/Lifecycle/Marks.antt =====
-- The operations that publish nothing keep the objects and versions in agreement.
use manage_call_ai.Base.{
  ℕ, String, ◌≡◌, refl, sym, ap, ◌∙◌, Bool, true, false, ◌&&◌, List, any, map, All-append, Option,
  none, some, arith, if_elim, if_split,
}
use manage_call_ai.Json.{Props}
use manage_call_ai.Lifecycle.Types.{State, Version, Object, Store, Result, ok, err}
use manage_call_ai.Lifecycle.Tables.{
  is_published, can_validate, can_simulate, is_row, mark_validated_row, mark_simulated_row,
  is_object, set_draft,
}
use manage_call_ai.Lifecycle.Service.{
  create_version, mark_version_validated, mark_version_simulated, validate_found, simulate_found,
}
use manage_call_ai.Lifecycle.Active.{
  find_object, ExistsObject, IsAgreed, IsConsistent, All-map_rows, mapped, find_object-map,
  names_active,
}

abbrev pub Keeps : Result Store → Type 0
Keeps (ok st) = IsConsistent st
Keeps (err e) = Unit

can_simulate-unpublished : (s : State) → can_simulate s ≡ true → is_published s ≡ false
unfolding can_simulate can_validate
can_simulate-unpublished State.published h = cc
can_simulate-unpublished State.draft h = refl
can_simulate-unpublished State.validated h = refl
can_simulate-unpublished State.simulated h = refl
can_simulate-unpublished State.superseded h = refl
can_simulate-unpublished State.rolled_back h = refl

can_validate-unpublished : (s : State) → can_validate s ≡ true → is_published s ≡ false
unfolding can_validate
can_validate-unpublished State.published h = cc
can_validate-unpublished State.draft h = refl
can_validate-unpublished State.validated h = refl
can_validate-unpublished State.simulated h = refl
can_validate-unpublished State.superseded h = refl
can_validate-unpublished State.rolled_back h = refl

module _ (id object_id tenant_id : String) (now : ℕ) where
  set_draft-same :
      (i t : String) (o : Object)
      → is_object i t (set_draft id object_id tenant_id o) ≡ is_object i t o
  unfolding set_draft is_object
  set_draft-same i t o = ground arith

  drafted : Object → Object
  drafted o = set_draft id object_id tenant_id o

  names_drafted :
      (o : Option Object) (i : String) → names_active (mapped drafted o) i ≡ names_active o i
  unfolding drafted set_draft
  names_drafted none i = refl
  names_drafted (some o) i = ground arith

  exists_drafted : (o : Option Object) → ExistsObject o → ExistsObject (mapped drafted o)
  exists_drafted none h = h
  exists_drafted (some o) h = tt

  -- An agreement does not depend on the drafts.
  drafted-IsAgreed :
      (objects : List Object) (v : Version) → IsAgreed objects v → IsAgreed (map drafted objects) v
  unfolding drafted
  drafted-IsAgreed objects v h =
      let e =
        find_object-map drafted v.object_id v.tenant_id (set_draft-same v.object_id v.tenant_id)
          objects in
      record {
        object = rw e (exists_drafted _ h.object);
        active = h.active ∙ sym (ap (λ o. names_active o v.id) e ∙ names_drafted _ v.id);
      }

  mark_validated-IsAgreed :
      (objects : List Object) (v : Version)
      → IsAgreed objects v
      → IsAgreed (map drafted objects) (mark_validated_row id object_id tenant_id now v)
  unfolding mark_validated_row
  mark_validated-IsAgreed objects v h =
      let k = drafted-IsAgreed objects v h in
      if_split (IsAgreed (map drafted objects))
        (is_row id object_id tenant_id v && can_validate v.state)
        (λ e. record {
          object = k.object;
          active = sym (can_validate-unpublished v.state (ground (arith, e))) ∙ k.active;
        })
        (λ _. k)

  mark_simulated-IsAgreed :
      (objects : List Object) (v : Version)
      → IsAgreed objects v
      → IsAgreed objects (mark_simulated_row id object_id tenant_id now v)
  unfolding mark_simulated_row
  mark_simulated-IsAgreed objects v k =
      if_split (IsAgreed objects) (is_row id object_id tenant_id v && can_simulate v.state)
        (λ e. record {
          object = k.object;
          active = sym (can_simulate-unpublished v.state (ground (arith, e))) ∙ k.active;
        })
        (λ _. k)

  mark_version_validated-IsConsistent :
      (st : Store)
      → IsConsistent st
      → IsConsistent (mark_version_validated object_id tenant_id id now st)
  unfolding mark_version_validated drafted
  mark_version_validated-IsConsistent st h =
      if_elim IsConsistent
        (any (λ v. is_row id object_id tenant_id v && can_validate v.state) st.versions)
        (All-map_rows (IsAgreed st.objects) (IsAgreed (map drafted st.objects))
          (mark_validated_row id object_id tenant_id now) (mark_validated-IsAgreed st.objects)
          st.versions h)
        h

  mark_version_simulated-IsConsistent :
      (st : Store)
      → IsConsistent st
      → IsConsistent (mark_version_simulated object_id tenant_id id now st)
  unfolding mark_version_simulated
  mark_version_simulated-IsConsistent st h =
      All-map_rows (IsAgreed st.objects) (IsAgreed st.objects)
        (mark_simulated_row id object_id tenant_id now) (mark_simulated-IsAgreed st.objects)
        st.versions h

  pub validate-Keeps :
      (validator : Version → Bool) (o : Option Version) (st : Store)
      → IsConsistent st
      → Keeps (validate_found object_id tenant_id validator id now o st)
  unfolding validate_found
  validate-Keeps validator none st h = tt
  validate-Keeps validator (some v) st h =
      if_elim IsConsistent (validator v) (mark_version_validated-IsConsistent _ h) h

  pub simulate-Keeps :
      (simulator : Version → Bool) (o : Option Version) (st : Store)
      → IsConsistent st
      → Keeps (simulate_found object_id tenant_id simulator id now o st)
  unfolding simulate_found
  simulate-Keeps simulator none st h = tt
  simulate-Keeps simulator (some v) st h =
      if_elim IsConsistent (simulator v) (mark_version_simulated-IsConsistent _ h) h

-- A version of an object that exists, with an id that the object does not name.
pub create_version-IsConsistent :
    (object_id tenant_id id : String) (definition : Props) (by : Option String)
    (metadata : Option Props) (st : Store)
    → ExistsObject (find_object object_id tenant_id st.objects)
    → names_active (find_object object_id tenant_id st.objects) id ≡ false
    → IsConsistent st
    → IsConsistent (create_version object_id tenant_id id definition by metadata st)
unfolding create_version
create_version-IsConsistent object_id tenant_id id definition by metadata st x fresh h =
    All-append (IsAgreed st.objects) st.versions _ h (record { object = x; active = sym fresh }, tt)
