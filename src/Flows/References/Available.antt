-- ===== src/Flows/References/Available.antt =====
-- The references that `validate` accepts against the reads of the runtime.
use mathlib.Core.List.{Memᴰ}
use manage_call_ai.Base.{
  String, ◌≡◌, refl, sym, subst, Bool, true, false, not, ◌&&◌, ◌||◌, List, [], ◌∷◌, ◌++◌, Option,
  none, some, Option-cases, if◌then◌else◌, arith, str_eq, flat_map, is_empty, append-nil_right, inl,
  inr, if_split,
}
use manage_call_ai.Json.{obj, Props, string_field, string_or_empty, or_default}
use manage_call_ai.Schedule.Types.{Schedule}
use manage_call_ai.Ivr.Graph.{GraphNode, make_node, as_graph_node}
use manage_call_ai.Ivr.Runtime.Types.{
  Result, ok, err, no_prompt_id, prompt_unavailable, no_extension_id, no_queue_id,
  no_voicemail_box_id, queue_unavailable,
}
use manage_call_ai.Ivr.Runtime.Directory.{
  PromptAsset, Queue, Directory, find_active_prompt, find_active_extension, find_active_queue,
  find_active_voicemail_box, find_active_schedule,
}
use manage_call_ai.Ivr.Runtime.Assets.{
  found_prompt, require_prompt, found_extension, require_extension_target, found_queue,
  require_queue_target, found_voicemail, require_voicemail_target,
}
use manage_call_ai.Flows.References.{
  prompt_not_active, extension_not_active, queue_not_active, voicemail_not_active, extension_errors,
  extension_given, prompt_errors, prompt_given, prompt_error, queue_errors, queue_given,
  queue_error, voicemail_errors, voicemail_given, reference_errors, prefix_errors, variable_errors,
  schedule_errors, schedule_given, schedule_not_active,
}

abbrev pub is_ok {ℓ} : {A : Type ℓ} → Result A → Bool
is_ok (ok a) = true
is_ok (err e) = false

abbrev pub is_found : Option Schedule → Bool
is_found none = false
is_found (some s) = true

abbrev pub names : String → Props → Bool
names key raw = not (str_eq (string_or_empty key raw) "")

append-nil_left {ℓ} : {A : Type ℓ} (xs ys : List A) → xs ++ ys ≡ [] → xs ≡ []
append-nil_left [] ys h = refl
append-nil_left (x ∷ xs) ys h = cc

flat_map-nil {ℓ κ} :
    {A : Type ℓ} {B : Type κ} (f : A → List B) (x : A) (xs : List A)
    → Memᴰ x xs
    → flat_map f xs ≡ []
    → f x ≡ []
flat_map-nil f x [] m h = elim m [ ]
flat_map-nil f x (y ∷ ys) (Memᴰ.head e) h =
    subst (λ z. f z ≡ []) (sym e) (append-nil_left (f y) (flat_map f ys) h)
flat_map-nil f x (y ∷ ys) (Memᴰ.tail m) h =
    flat_map-nil f x ys m (append-nil_right (f y) (flat_map f ys) h)

-- The read that the runtime makes for a node, if the node names what it reads.
module _ (dir : Directory) (tenant_id : String) where
  abbrev pub can_read : GraphNode → Bool
  can_read n =
      if str_eq n.type "transfer_extension" && names "extension_id" n.raw
      then is_ok (require_extension_target dir tenant_id n)
      else if (str_eq n.type "play_prompt" || str_eq n.type "play_collect")
          && names "prompt_id" n.raw
      then is_ok (require_prompt dir tenant_id n)
      else if str_eq n.type "queue" && names "queue_id" n.raw
      then is_ok (require_queue_target dir tenant_id n)
      else if str_eq n.type "voicemail_drop" && names "voicemail_box_id" n.raw
      then is_ok (require_voicemail_target dir tenant_id n)
      else if str_eq n.type "business_hours" && names "schedule_id" n.raw
      then is_found (find_active_schedule dir tenant_id (string_or_empty "schedule_id" n.raw))
      else true

  extension_read :
      (n : GraphNode) (node id : String)
      → str_eq id "" ≡ false
      → extension_given dir tenant_id node (some id) ≡ []
      → is_ok (
          if str_eq id ""
          then err (no_extension_id n.id)
          else found_extension dir tenant_id id (find_active_extension dir tenant_id id))
        ≡ true
  unfolding found_extension
  extension_read n node id ne h = elim (Option-cases (find_active_extension dir tenant_id id)) [
    | inl e ↦ let x : extension_not_active node id ∷ [] ≡ [] = rw e at h in cc
    | inr (r, e) ↦ rw (ne, e) refl
  ]

  queue_read :
      (n : GraphNode) (node id : String)
      → str_eq id "" ≡ false
      → queue_given dir tenant_id node (some id) ≡ []
      → is_ok (
          if str_eq id ""
          then err (no_queue_id n.id)
          else found_queue dir tenant_id id (find_active_queue dir tenant_id id))
        ≡ true
  unfolding found_queue
  queue_read n node id ne h = elim (Option-cases (find_active_queue dir tenant_id id)) [
    | inl e ↦ let x : queue_not_active node id ∷ [] ≡ [] = rw e at h in cc
    | inr (r, e) ↦ rw (ne, e) (members r (rw e at h))
  ]
    where
      members :
          (r : Queue)
          → queue_error dir tenant_id node id (some r) ≡ []
          → is_ok (if is_empty r.members then err (queue_unavailable id) else ok r) ≡ true
      members r h = ground arith

  voicemail_read :
      (n : GraphNode) (node id : String)
      → str_eq id "" ≡ false
      → voicemail_given dir tenant_id node (some id) ≡ []
      → is_ok (
          if str_eq id ""
          then err (no_voicemail_box_id n.id)
          else found_voicemail dir tenant_id id (find_active_voicemail_box dir tenant_id id))
        ≡ true
  unfolding found_voicemail
  voicemail_read n node id ne h = elim (Option-cases (find_active_voicemail_box dir tenant_id id)) [
    | inl e ↦ let x : voicemail_not_active node id ∷ [] ≡ [] = rw e at h in cc
    | inr (r, e) ↦ rw (ne, e) refl
  ]

  prompt_read :
      (n : GraphNode) (node id : String)
      → str_eq id "" ≡ false
      → prompt_given dir tenant_id node (some id) ≡ []
      → is_ok (
          if str_eq id ""
          then err (no_prompt_id n.id)
          else found_prompt dir tenant_id id (find_active_prompt dir tenant_id id))
        ≡ true
  unfolding found_prompt
  prompt_read n node id ne h = elim (Option-cases (find_active_prompt dir tenant_id id)) [
    | inl e ↦ let x : prompt_not_active node id ∷ [] ≡ [] = rw e at h in cc
    | inr (r, e) ↦ rw (ne, e) (uri r (rw e at h))
  ]
    where
      uri :
          (r : PromptAsset)
          → prompt_error dir tenant_id node id (some r) ≡ []
          → is_ok {A = String × String} (
              if str_eq (or_default r.storage_uri "") ""
              then err (prompt_unavailable id)
              else ok (id, or_default r.storage_uri ""))
            ≡ true
      uri r h = ground arith

  extension_ok :
      (n : GraphNode) (o : Option String)
      → string_field "extension_id" n.raw ≡ o
      → string_field "type" n.raw ≡ some n.type
      → str_eq n.type "transfer_extension" ≡ true
      → names "extension_id" n.raw ≡ true
      → extension_errors dir tenant_id n.raw ≡ []
      → is_ok (require_extension_target dir tenant_id n) ≡ true
  unfolding extension_errors require_extension_target
  extension_ok n none e t y g h = let x : false ≡ true = rw e at g in cc
  extension_ok n (some id) e t y g h =
      let nonempty : not (str_eq id "") ≡ true = rw e at g in
      rw e (
        extension_read n (string_or_empty "id" n.raw) id (ground (arith, nonempty))
          (rw (t, y, e) at h))

  queue_ok :
      (n : GraphNode) (o : Option String)
      → string_field "queue_id" n.raw ≡ o
      → string_field "type" n.raw ≡ some n.type
      → str_eq n.type "queue" ≡ true
      → names "queue_id" n.raw ≡ true
      → queue_errors dir tenant_id n.raw ≡ []
      → is_ok (require_queue_target dir tenant_id n) ≡ true
  unfolding queue_errors require_queue_target
  queue_ok n none e t y g h = let x : false ≡ true = rw e at g in cc
  queue_ok n (some id) e t y g h =
      let nonempty : not (str_eq id "") ≡ true = rw e at g in
      rw e (
        queue_read n (string_or_empty "id" n.raw) id (ground (arith, nonempty)) (rw (t, y, e) at h))

  voicemail_ok :
      (n : GraphNode) (o : Option String)
      → string_field "voicemail_box_id" n.raw ≡ o
      → string_field "type" n.raw ≡ some n.type
      → str_eq n.type "voicemail_drop" ≡ true
      → names "voicemail_box_id" n.raw ≡ true
      → voicemail_errors dir tenant_id n.raw ≡ []
      → is_ok (require_voicemail_target dir tenant_id n) ≡ true
  unfolding voicemail_errors require_voicemail_target
  voicemail_ok n none e t y g h = let x : false ≡ true = rw e at g in cc
  voicemail_ok n (some id) e t y g h =
      let nonempty : not (str_eq id "") ≡ true = rw e at g in
      rw e (
        voicemail_read n (string_or_empty "id" n.raw) id (ground (arith, nonempty))
          (rw (t, y, e) at h))

  prompt_ok :
      (n : GraphNode) (o : Option String)
      → string_field "prompt_id" n.raw ≡ o
      → string_field "type" n.raw ≡ some n.type
      → (str_eq n.type "play_prompt" || str_eq n.type "play_collect") ≡ true
      → names "prompt_id" n.raw ≡ true
      → prompt_errors dir tenant_id n.raw ≡ []
      → is_ok (require_prompt dir tenant_id n) ≡ true
  unfolding prompt_errors require_prompt
  prompt_ok n none e t y g h = let x : false ≡ true = rw e at g in cc
  prompt_ok n (some id) e t y g h =
      let nonempty : not (str_eq id "") ≡ true = rw e at g in
      rw e (
        prompt_read n (string_or_empty "id" n.raw) id (ground (arith, nonempty))
          (rw (t, y, e) at h))

  schedule_read :
      (node id : String)
      → schedule_given dir tenant_id node (some id) ≡ []
      → is_found (find_active_schedule dir tenant_id id) ≡ true
  schedule_read node id h = elim (Option-cases (find_active_schedule dir tenant_id id)) [
    | inl e ↦ let x : schedule_not_active node id ∷ [] ≡ [] = rw e at h in cc
    | inr (r, e) ↦ rw e refl
  ]

  schedule_ok :
      (n : GraphNode) (o : Option String)
      → string_field "schedule_id" n.raw ≡ o
      → string_field "type" n.raw ≡ some n.type
      → str_eq n.type "business_hours" ≡ true
      → names "schedule_id" n.raw ≡ true
      → schedule_errors dir tenant_id n.raw ≡ []
      → is_found (find_active_schedule dir tenant_id (string_or_empty "schedule_id" n.raw)) ≡ true
  unfolding schedule_errors
  schedule_ok n none e t y g h = let x : false ≡ true = rw e at g in cc
  schedule_ok n (some id) e t y g h =
      rw e (schedule_read (string_or_empty "id" n.raw) id (rw (t, y, e) at h))

  can_read_lem :
      (n : GraphNode)
      → string_field "type" n.raw ≡ some n.type
      → extension_errors dir tenant_id n.raw ≡ []
      → prompt_errors dir tenant_id n.raw ≡ []
      → queue_errors dir tenant_id n.raw ≡ []
      → voicemail_errors dir tenant_id n.raw ≡ []
      → schedule_errors dir tenant_id n.raw ≡ []
      → can_read n ≡ true
  can_read_lem n t e p q v c =
      let Holds : Bool → Type 0 = λ b. b ≡ true in
      if_split Holds (str_eq n.type "transfer_extension" && names "extension_id" n.raw)
        (λ y.
          extension_ok n (string_field "extension_id" n.raw) refl t (ground (arith, y))
            (ground (arith, y)) e)
        λ _.
          if_split Holds
            ((str_eq n.type "play_prompt" || str_eq n.type "play_collect")
              && names "prompt_id" n.raw)
            (λ y.
              prompt_ok n (string_field "prompt_id" n.raw) refl t (ground (arith, y))
                (ground (arith, y)) p)
            λ _.
              if_split Holds (str_eq n.type "queue" && names "queue_id" n.raw)
                (λ y.
                  queue_ok n (string_field "queue_id" n.raw) refl t (ground (arith, y))
                    (ground (arith, y)) q)
                λ _.
                  if_split Holds (str_eq n.type "voicemail_drop" && names "voicemail_box_id" n.raw)
                    (λ y.
                      voicemail_ok n (string_field "voicemail_box_id" n.raw) refl t
                        (ground (arith, y)) (ground (arith, y)) v)
                    λ _.
                      if_split Holds (str_eq n.type "business_hours" && names "schedule_id" n.raw)
                        (λ y.
                          schedule_ok n (string_field "schedule_id" n.raw) refl t
                            (ground (arith, y)) (ground (arith, y)) c)
                        (λ _. refl)

  make_node-type :
      (id type : Option String) (ps : Props) (n : GraphNode)
      → make_node id type ps ≡ some n
      → type ≡ some n.type
  make_node-type none type ps n h = cc
  make_node-type (some id) none ps n h = cc
  make_node-type (some id) (some type) ps n h = cc

  -- For every node that `validate` finds no fault with, the runtime can read the extension, prompt, queue,
  -- voicemail box or schedule that the node names, from the same tables.
  pub reference_errors-can_read :
      (nodes : List Props) (n : GraphNode)
      → reference_errors dir tenant_id nodes ≡ []
      → Memᴰ n.raw nodes
      → as_graph_node (obj n.raw) ≡ some n
      → can_read n ≡ true
  unfolding reference_errors as_graph_node
  reference_errors-can_read nodes n h m r =
      let type : string_field "type" n.raw ≡ some n.type =
        make_node-type (string_field "id" n.raw) (string_field "type" n.raw) n.raw n r in
      let after_extensions =
        append-nil_right (flat_map (extension_errors dir tenant_id) nodes) _ h in
      let after_prompts =
        append-nil_right (flat_map (prompt_errors dir tenant_id) nodes) _ after_extensions in
      let after_schedules =
        append-nil_right (flat_map (schedule_errors dir tenant_id) nodes) _ after_prompts in
      let after_prefixes = append-nil_right (flat_map prefix_errors nodes) _ after_schedules in
      let after_variables = append-nil_right (flat_map variable_errors nodes) _ after_prefixes in
      let voicemails =
        append-nil_right (flat_map (queue_errors dir tenant_id) nodes) _ after_variables in
      can_read_lem n type
        (flat_map-nil (extension_errors dir tenant_id) n.raw nodes m (append-nil_left _ _ h))
        (flat_map-nil (prompt_errors dir tenant_id) n.raw nodes m
          (append-nil_left _ _ after_extensions))
        (flat_map-nil (queue_errors dir tenant_id) n.raw nodes m
          (append-nil_left _ _ after_variables))
        (flat_map-nil (voicemail_errors dir tenant_id) n.raw nodes m voicemails)
        (flat_map-nil (schedule_errors dir tenant_id) n.raw nodes m
          (append-nil_left _ _ after_prompts))
