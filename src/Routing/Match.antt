-- ===== src/Routing/Match.antt =====
-- packages/registry/src/routing/route-matcher.ts and `resolveRegistryRouteMatch` of
-- packages/registry-platform/src/routing/route-match.ts. The regular expressions and
-- `decodeURIComponent` are parameters: `exec` gives the captures of an expression in a path, if it
-- matches, and `decode` fails where the function throws. The template and the span attributes of a
-- match are left out.
pub mod First
use hootifactory.Prelude.{
  ℕ, zero, suc, Bool, true, false, not, ◌&&◌, List, [], ◌∷◌, ◌++◌, Option, none, some, ◌==◌, nat_eq,
  Comparable, text_eq, Text, codes, if◌then◌else◌, contains, is_some, or_else, strip_suffix, map,
  nat_beq, nat_beq_iff, ◌≡◌, ◌↔◌, arith,
}
use hootifactory.Routing.{slash, split_path, join_path}

-- `HttpMethod`
pub data HttpMethod : Type 0 where
  get head put post patch delete : HttpMethod

pub record RouteEntry : Type 0 where
  pub method : HttpMethod
  pub pattern : Text
  pub handler_id : Text

pub record CompiledRouteParam : Type 0 where
  pub name : Text
  pub greedy : Bool

pub record CompiledRoute : Type 0 where
  pub entry : RouteEntry
  pub regex : Text
  pub params : List CompiledRouteParam

pub record RouteMatch : Type 0 where
  pub entry : RouteEntry
  pub params : List (Text × Text)
  pub path : Text

abbrev method_index : HttpMethod → ℕ
method_index get = 0
method_index head = 1
method_index put = 2
method_index post = 3
method_index patch = 4
method_index delete = 5

abbrev pub same_method : HttpMethod → HttpMethod → Bool
same_method a b = nat_beq (method_index a) (method_index b)

-- `.*+?^${}()|[]\`
abbrev special_chars : Text
special_chars = codes ".*+?^${}()|[]\\"

unfoldable pub escape_regex : Text → Text
escape_regex [] = []
escape_regex (c ∷ s) =
    let rest = escape_regex s in if contains special_chars c then 92 ∷ c ∷ rest else c ∷ rest

-- A segment's part of the expression, and the parameter it binds.
unfoldable pub compile_segment : Text → Text × List CompiledRouteParam
compile_segment [] = ([], [])
compile_segment (c ∷ s) =
    if c == 58
    then elim (strip_suffix (codes "+") s) [
      | some name ↦ (codes "(.+?)", record { name = name; greedy = true } ∷ [])
      | none ↦ (codes "([^/]+)", record { name = s; greedy = false } ∷ [])
    ]
    else (escape_regex (c ∷ s), [])

unfoldable pub compile_segments : List Text → List Text × List CompiledRouteParam
compile_segments [] = ([], [])
compile_segments (segment ∷ segments) =
    let rest = compile_segments segments in
    let here = compile_segment segment in (here.0 ∷ rest.0, here.1 ++ rest.1)

-- A trailing slash becomes optional.
abbrev pub optional_slash : Text → Text
optional_slash body = elim (strip_suffix (slash ∷ []) body) [
  | none ↦ body
  | some before ↦ before ++ codes "/?"
]

unfoldable pub compile_route : RouteEntry → CompiledRoute
compile_route entry =
    let compiled = compile_segments (split_path entry.pattern) in
    record {
      entry = entry;
      regex = codes "^" ++ (optional_slash (join_path compiled.0) ++ codes "$");
      params = compiled.1;
    }

unfoldable pub compile_routes : List RouteEntry → List CompiledRoute
compile_routes entries = map compile_route entries

-- `params[name] = value`
abbrev pub set_param : Text → Text → List (Text × Text) → List (Text × Text)
set_param name value [] = (name, value) ∷ []
set_param name value ((n, v) ∷ ps) =
    let rest = set_param name value ps in if n == name then (n, value) ∷ ps else (n, v) ∷ rest

-- `m[i + 1] ?? ""`, the captures from the parameter on.
abbrev pub first_capture : List Text → Text
first_capture [] = []
first_capture (m ∷ ms) = m

abbrev pub later_captures : List Text → List Text
later_captures [] = []
later_captures (m ∷ ms) = ms

-- A value that a single-segment parameter may not have.
abbrev pub is_rejected : CompiledRouteParam → Text → Bool
is_rejected p value = not p.greedy && contains value slash

pub data RouteError : Type 0 where
  name_unknown not_found : RouteError

pub data RouteResult : Type 0 where
  matched : RouteMatch → Bool → RouteResult
  missed : RouteError → RouteResult

abbrev pub miss_error : Bool → RouteError
miss_error name_unknown_on_miss = if name_unknown_on_miss then name_unknown else not_found

module _ (exec : Text → Text → Option (List Text)) (decode : Text → Option Text) where
  unfoldable pub safe_decode : Text → Text
  safe_decode s = or_else (decode s) s

  -- The loop over the parameters; `none` is `rejected`.
  unfoldable pub bind_params :
      List CompiledRouteParam → List Text → List (Text × Text) → Option (List (Text × Text))
  bind_params [] captures bound = some bound
  bind_params (p ∷ ps) captures bound =
      let value = safe_decode (first_capture captures) in
      let rest = bind_params ps (later_captures captures) (set_param p.name value bound) in
      if is_rejected p value then none else rest

  -- What one route makes of the path.
  unfoldable pub try_route : CompiledRoute → HttpMethod → Text → Option RouteMatch
  try_route c method path =
      if same_method c.entry.method method
      then elim (exec c.regex path) [
        | none ↦ none
        | some captures ↦ elim (bind_params c.params captures []) [
          | none ↦ none
          | some bound ↦ some (record { entry = c.entry; params = bound; path = path })
        ]
      ]
      else none

  unfoldable pub match_route : List CompiledRoute → HttpMethod → Text → Option RouteMatch
  match_route [] method path = none
  match_route (c ∷ routes) method path = elim (try_route c method path) [
    | some found ↦ some found
    | none ↦ match_route routes method path
  ]

  -- The match, and whether it is one of the routes for `GET`.
  unfoldable pub resolve_route_match : List CompiledRoute → HttpMethod → Text → Bool → RouteResult
  resolve_route_match routes method rest name_unknown_on_miss =
      elim (match_route routes method rest) [
        | some m ↦ matched m false
        | none ↦
            if same_method method head
            then elim (match_route routes get rest) [
              | some m ↦ matched m true
              | none ↦ missed (miss_error name_unknown_on_miss)
            ]
            else missed (miss_error name_unknown_on_miss)
      ]
