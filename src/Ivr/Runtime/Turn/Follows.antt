-- ===== src/Ivr/Runtime/Turn/Follows.antt =====
-- The loop's body goes along edges of the graph, and fails only where a referenced asset is missing.
use manage_call_ai.Base.{
  String, ◌≡◌, refl, ◌⊎◌, inl, inr, true, false, List, [], ◌∷◌, Option, none, some, str_eq, eq_iff,
  str_eq_sym, has, if_elim, if_split,
}
use manage_call_ai.Json.{Props, get, object_of, string_field, string_or_empty, or_default}
use manage_call_ai.Schedule.Types.{Schedule}
use manage_call_ai.Schedule.Hours.{is_in_business_hours}
use manage_call_ai.Ivr.NodeType.{ivr_node_types}
use manage_call_ai.Ivr.Graph.{GraphNode}
use manage_call_ai.Ivr.Edges.{Link, link_field, HasLink, Edge, by_link}
use manage_call_ai.Ivr.Planner.{PlannerContext, resolve_switch_input, selected_case, caller_matches}
use manage_call_ai.Ivr.Planner.Follows.{selected_case-Edge}
use manage_call_ai.Ivr.Validation.Visit.Targets.{HasText}
use manage_call_ai.Ivr.Runtime.Types.{
  IvrRuntimeAction, action_node, Variables, Result, ok, err, IsAssetError, Gives,
}
use manage_call_ai.Ivr.Runtime.Directory.{Directory}
use manage_call_ai.Ivr.Runtime.Assets.Errors.{
  HasText-ne, prompt_action-Gives, collect_action-Gives, extension_action-Gives, queue_action-Gives,
  voicemail_action-Gives,
}
use manage_call_ai.Ivr.Runtime.Turn.{
  Environment, Turn, goto, act, fail, turn_of, switch_target, found_schedule, hours_turn,
  caller_turn, last_turn, action_turn, turn,
}

-- The fields that the validation requires of a node by its type.
pub record HasReferences (n : GraphNode) : Type 0 where
  pub supported : has n.type ivr_node_types ≡ true
  pub schedule : n.type ≡ "business_hours" → HasText n "schedule_id"
  pub queue : n.type ≡ "queue" → HasText n "queue_id"
  pub voicemail_box : n.type ≡ "voicemail_drop" → HasText n "voicemail_box_id"

-- An end of the flow, or the end of an edge.
abbrev pub IsTarget : GraphNode → String → Type 0
IsTarget n target = (target ≡ "") ⊎ Edge n target

pub link-IsTarget :
    (n : GraphNode) (l : Link)
    → HasLink n.type l
    → IsTarget n (string_or_empty (link_field l) n.raw)
link-IsTarget n l h = of_option (string_field (link_field l) n.raw) refl
  where
    of_option :
        (o : Option String) → string_field (link_field l) n.raw ≡ o → IsTarget n (or_default o "")
    of_option none e = inl refl
    of_option (some target) e = inr (by_link l h e)

-- The types of the nodes that the loop passes without an action.
abbrev pub silent_types : List String
silent_types = "start" ∷ "switch" ∷ "set_variable" ∷ "business_hours" ∷ "caller_id_match" ∷ []

abbrev pub IsSilent : GraphNode → Type 0
IsSilent n = has n.type silent_types ≡ true

module _ (n : GraphNode) where
  abbrev pub Follows : Turn → Type 0
  Follows (goto target vars) = IsSilent n × IsTarget n target
  Follows (act a) = action_node a ≡ n.id
  Follows (fail e) = IsAssetError e

  switch_target-IsTarget :
      (ctx : PlannerContext) → n.type ≡ "switch" → IsTarget n (switch_target n ctx)
  unfolding switch_target
  switch_target-IsTarget ctx t =
      of_option
        (selected_case (resolve_switch_input n.raw ctx)
          (or_default (object_of (get "cases" n.raw)) Props.end))
        (selected_case-Edge n (resolve_switch_input n.raw ctx))
    where
      of_option :
          (o : Option String)
          → ((target : String) → n.type ≡ "switch" → o ≡ some target → Edge n target)
          → IsTarget n (or_default o (string_or_empty "default_node_id" n.raw))
      of_option none f = link-IsTarget n Link.default tt
      of_option (some target) f = inr (f target t refl)

  turn_of-Follows :
      (r : Result IvrRuntimeAction) → Gives (λ a. action_node a ≡ n.id) r → Follows (turn_of r)
  unfolding turn_of
  turn_of-Follows (ok a) h = h
  turn_of-Follows (err e) h = h

  module _ (env : Environment) (dir : Directory) (tenant_id : String) where
    found_schedule-Follows :
        (id : String) (vars : Variables) (o : Option Schedule)
        → n.type ≡ "business_hours"
        → Follows (found_schedule env dir tenant_id n id vars o)
    unfolding found_schedule
    found_schedule-Follows id vars none t = tt
    found_schedule-Follows id vars (some s) t =
        if_elim Follows (is_in_business_hours env.intl s env.now)
          (rw t refl, link-IsTarget n Link.in_hours t)
          (rw t refl, link-IsTarget n Link.out_of_hours t)

    hours_turn-Follows :
        (vars : Variables)
        → n.type ≡ "business_hours"
        → HasText n "schedule_id"
        → Follows (hours_turn env dir tenant_id n vars)
    unfolding hours_turn
    hours_turn-Follows vars t h =
        if_split Follows (str_eq (string_or_empty "schedule_id" n.raw) "")
          (λ e. absurd (HasText-ne n "schedule_id" h e)) (λ _. found_schedule-Follows _ vars _ t)

    abbrev is_type : (type : String) → str_eq n.type type ≡ true → n.type ≡ type
    is_type type = (eq_iff n.type type).0

    caller_turn-Follows :
        (caller : Option String) (vars : Variables)
        → n.type ≡ "caller_id_match"
        → Follows (caller_turn env dir tenant_id n caller vars)
    unfolding caller_turn
    caller_turn-Follows caller vars t =
        if_elim Follows (caller_matches caller n.raw) (rw t refl, link-IsTarget n Link.match t)
          (rw t refl, link-IsTarget n Link.no_match t)

    -- A supported type is one of those that the loop handles.
    unsupported :
        has n.type ivr_node_types ≡ true
        → str_eq n.type "start" ≡ false
        → str_eq n.type "switch" ≡ false
        → str_eq n.type "set_variable" ≡ false
        → str_eq n.type "play_prompt" ≡ false
        → str_eq n.type "play_collect" ≡ false
        → str_eq n.type "transfer_extension" ≡ false
        → str_eq n.type "queue" ≡ false
        → str_eq n.type "voicemail_drop" ≡ false
        → str_eq n.type "hangup" ≡ false
        → str_eq n.type "caller_id_match" ≡ false
        → str_eq n.type "business_hours" ≡ false
        → ⊥
    unsupported h a b c d e f g i j k l = cc (
        rw
          (
            str_eq_sym "start" n.type,
            str_eq_sym "play_prompt" n.type,
            str_eq_sym "play_collect" n.type,
            str_eq_sym "switch" n.type,
            str_eq_sym "transfer_extension" n.type,
            str_eq_sym "hangup" n.type,
            str_eq_sym "business_hours" n.type,
            str_eq_sym "caller_id_match" n.type,
            str_eq_sym "set_variable" n.type,
            str_eq_sym "queue" n.type,
            str_eq_sym "voicemail_drop" n.type,
            a,
            b,
            c,
            d,
            e,
            f,
            g,
            i,
            j,
            k,
            l,
          )
          at h)

    -- Whatever the context, a node with its references leads along an edge or ends the flow, acts at
    -- itself, or fails by an asset.
    pub turn-Follows :
        (caller last : Option String) (vars : Variables)
        → HasReferences n
        → Follows (turn env dir tenant_id n caller last vars)
    unfolding turn action_turn last_turn action_node
    turn-Follows caller last vars r =
        if_split Follows (str_eq n.type "start")
          (λ t. (rw (is_type "start" t) refl, link-IsTarget n Link.next tt))
          λ n1.
            if_split Follows (str_eq n.type "switch")
              (λ t. (rw (is_type "switch" t) refl, switch_target-IsTarget _ (is_type "switch" t)))
              λ n2.
                if_split Follows (str_eq n.type "set_variable")
                  (λ t. (rw (is_type "set_variable" t) refl, link-IsTarget n Link.next tt))
                  λ n3.
                    if_split Follows (str_eq n.type "play_prompt")
                      (λ _. turn_of-Follows _ (prompt_action-Gives dir tenant_id n))
                      λ n4.
                        if_split Follows (str_eq n.type "play_collect")
                          (λ _. turn_of-Follows _ (collect_action-Gives dir tenant_id n))
                          λ n5.
                            if_split Follows (str_eq n.type "transfer_extension")
                              (λ _. turn_of-Follows _ (extension_action-Gives dir tenant_id n))
                              λ n6.
                                if_split Follows (str_eq n.type "queue")
                                  (λ t. turn_of-Follows _ (
                                    queue_action-Gives dir tenant_id n
                                      (r.queue (is_type "queue" t))))
                                  λ n7.
                                    if_split Follows (str_eq n.type "voicemail_drop")
                                      (λ t. turn_of-Follows _ (
                                        voicemail_action-Gives dir tenant_id n
                                          (r.voicemail_box (is_type "voicemail_drop" t))))
                                      λ n8.
                                        if_split Follows (str_eq n.type "hangup") (λ _. refl)
                                          λ n9.
                                            if_split Follows (str_eq n.type "caller_id_match")
                                              (λ t.
                                                caller_turn-Follows caller vars
                                                  (is_type "caller_id_match" t))
                                              λ n10.
                                                if_split Follows (str_eq n.type "business_hours")
                                                  (λ t.
                                                    let type = is_type "business_hours" t in
                                                    hours_turn-Follows vars type (r.schedule type))
                                                  λ n11. absurd (
                                                    unsupported r.supported n1 n2 n3 n4 n5 n6 n7 n8
                                                      n9 n10 n11)
