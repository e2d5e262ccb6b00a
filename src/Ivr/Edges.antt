-- ===== src/Ivr/Edges.antt =====
-- Which nodes a node of an IVR graph leads to, read off its fields: what the keys of the graph mean
-- in apps/api/src/modules/ivr-flows, stated apart from the code that follows them.
use mathlib.Core.List.{Memᴰ}
use manage_call_ai.Base.{String, ◌≡◌, List, some, arith, str_eq, eq_iff, Bool-cases, inl, inr}
use manage_call_ai.Json.{Json, str, Props, end, prop, get, entries, object_of, string_field}
use manage_call_ai.Ivr.Graph.{GraphNode, find_node}

pub data Link : Type 0 where
  next timeout invalid default fallback : Link
  in_hours out_of_hours match no_match : Link

abbrev pub link_field : Link → String
link_field next = "next_node_id"
link_field timeout = "timeout_node_id"
link_field invalid = "invalid_node_id"
link_field default = "default_node_id"
link_field fallback = "fallback_node_id"
link_field in_hours = "in_hours_node_id"
link_field out_of_hours = "out_of_hours_node_id"
link_field match = "match_node_id"
link_field no_match = "no_match_node_id"

-- The types of nodes that have the link; the first five belong to every type.
abbrev pub HasLink : String → Link → Type 0
HasLink type in_hours = type ≡ "business_hours"
HasLink type out_of_hours = type ≡ "business_hours"
HasLink type match = type ≡ "caller_id_match"
HasLink type no_match = type ≡ "caller_id_match"
HasLink type _ = Unit

pub data Edge (n : GraphNode) (target : String) : Type 0 where
  by_link :
      (l : Link)
      → HasLink n.type l
      → string_field (link_field l) n.raw ≡ some target
      → Edge n target
  by_case :
      n.type ≡ "switch"
      → (cases : Props) → object_of (get "cases" n.raw) ≡ some cases
      → (key : String) → Memᴰ (key, str target) (entries cases)
      → Edge n target

-- The nodes that a call can come to from `entry`.
pub data Reach (nodes : List GraphNode) (entry : String) : String → Type 0 where
  start : Reach nodes entry entry
  step :
      {id : String} (n : GraphNode) (target : String)
      → Reach nodes entry id
      → find_node id nodes ≡ some n
      → Edge n target
      → Reach nodes entry target

pub get-Memᴰ :
    (key : String) (v : Json) (ps : Props) → get key ps ≡ some v → Memᴰ (key, v) (entries ps)
get-Memᴰ key v end h = cc
get-Memᴰ key v (prop k w ps) h = elim (Bool-cases (str_eq k key)) [
  | inl e ↦ Memᴰ.head (ground (arith, eq_iff k key, h, e))
  | inr ne ↦ Memᴰ.tail (get-Memᴰ key v ps (rw ne at h))
]
