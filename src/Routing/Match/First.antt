-- ===== src/Routing/Match/First.antt =====
-- Which route answers a request
-- (packages/registry/src/routing/route-matcher.ts).
use hootifactory.Prelude.{
  ◌≡◌, ◌⊎◌, true, false, List, [], ◌∷◌, Option, some, nat_eq, text_eq, Text, contains,
}
use hootifactory.Routing.{slash}
use hootifactory.Routing.Match.{
  HttpMethod, CompiledRouteParam, CompiledRoute, RouteMatch, same_method, first_capture,
  later_captures, safe_decode, bind_params,
}

module _ (exec : Text → Text → Option (List Text)) (decode : Text → Option Text) where
  -- The decoded value of each parameter of one segment has no slash.
  abbrev pub SlashFree : List CompiledRouteParam → List Text → Type 0
  SlashFree [] captures = Unit
  SlashFree (p ∷ ps) captures =
      ((p.greedy ≡ true)
        ⊎ (contains (safe_decode exec decode (first_capture captures)) slash ≡ false))
      × SlashFree ps (later_captures captures)

  -- The route takes the request, with these captures.
  abbrev pub Takes : CompiledRoute → HttpMethod → Text → List Text → RouteMatch → Type 0
  Takes c method path captures m =
      (same_method c.entry.method method ≡ true)
      × (exec c.regex path ≡ some captures)
      × (bind_params exec decode c.params captures [] ≡ some m.params)
      × SlashFree c.params captures
      × (m.entry ≡ c.entry)
      × (m.path ≡ path)
