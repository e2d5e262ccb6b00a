-- ===== src/Lifecycle/Lineage.antt =====
-- apps/api/src/modules/ai/ai-change-lineage.ts: the mark of a change that an AI made.
use manage_call_ai.Base.{Bool, true, false, ◌&&◌, Option, none, some, if◌then◌else◌}
use manage_call_ai.Json.{Json, bool, obj, Props, get, string_of}

unfoldable pub is_true : Option Json → Bool
is_true (some (bool b)) = b
is_true _ = false

abbrev is_text : Option Json → Bool
is_text o = elim (string_of o) [ none ↦ false | some s ↦ true ]

-- `!!actor && typeof actor === 'object' && typeof actor.actor_type === 'string'`; an array has no
-- `actor_type`.
unfoldable pub has_actor_type : Option Json → Bool
has_actor_type (some (obj actor)) = is_text (get "actor_type" actor)
has_actor_type _ = false

unfoldable pub is_ai_lineage_record : Props → Bool
is_ai_lineage_record record' =
    is_true (get "ai_assisted" record')
    && (is_true (get "requires_human_approval" record') && has_actor_type (get "actor" record'))

unfoldable pub lineage_of : Option Json → Option Props
lineage_of (some (obj ps)) = if is_ai_lineage_record ps then some ps else none
lineage_of _ = none

-- `null` metadata is the object without properties here.
unfoldable pub read_ai_lineage : Props → Option Props
unfolding lineage_of is_ai_lineage_record is_true has_actor_type
read_ai_lineage metadata = lineage_of (get "ai_lineage" metadata)
