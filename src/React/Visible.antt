-- ===== src/React/Visible.antt =====
-- runtime/engine/infra/react.go: which tools the model is offered.
use mathlib.Core.List.Memᴰ
use kugelblitz.Common.{
  ◌⊎◌, String, none, some, List, [], ◌∷◌, ◌≡◌, refl, sym, ap, ◌∙◌, option_split, keep, Memᴰ,
  none_ne_some, some_eq,
}
use kugelblitz.React.Registry.{ToolDefinition, RegistryEntry}
use kugelblitz.React.{
  ReactAgent, all_tools, is_allowed, visible_tools, with_tools, enable_human_in_the_loop,
}

module _ {W : Type 0} where
  -- A cache is what the whitelist leaves of the tools there are.
  abbrev pub IsCached : ReactAgent W → Type 0
  IsCached a =
      (names : List String) (cached : List ToolDefinition)
      → a.tool_names ≡ some names
      → a.visible_cache ≡ some cached
      → cached ≡ keep (is_allowed names) (all_tools a)

  pub uncached-IsCached : (a : ReactAgent W) → a.visible_cache ≡ none → IsCached a
  uncached-IsCached a h names cached e e' = absurd (none_ne_some (sym e' ∙ h))

  -- WithTools and EnableHumanInTheLoop keep the cache right: they drop it when the whitelist or the
  -- tools change.
  pub with_tools-enable_human-IsCached :
      (a : ReactAgent W)
      → IsCached a
      → ((names : List String) → IsCached (with_tools names a))
        × ((es : List (String × RegistryEntry W)) → IsCached (enable_human_in_the_loop es a))
  unfolding with_tools enable_human_in_the_loop
  with_tools-enable_human-IsCached a h = (
    λ names. elim names as (λ k. IsCached (with_tools k a)) [
      | [] ↦ uncached-IsCached (record a { tool_names = none; visible_cache = none }) refl
      | n ∷ ns ↦
          uncached-IsCached (record a { tool_names = some (n ∷ ns); visible_cache = none }) refl
    ],
    λ es.
        option_split (λ (z : ReactAgent W). IsCached z) a.local_tools
          (λ e. uncached-IsCached (record a { visible_cache = none; local_tools = some es }) refl)
          (λ old e. h),
  )

  -- What visibleTools returns and leaves under a whitelist.
  pub record Visible (names : List String) (a : ReactAgent W)
      (x : List ToolDefinition × ReactAgent W) : Type 0 where
    pub tools : x.0 ≡ keep (is_allowed names) (all_tools a)
    pub names_kept : x.1.tool_names ≡ some names
    pub all_kept : all_tools x.1 ≡ all_tools a
    pub cached : IsCached x.1

  pub visible_tools-Visible :
      (names : List String) (a : ReactAgent W)
      → a.tool_names ≡ some names
      → IsCached a
      → Visible names a (visible_tools a)
  unfolding visible_tools all_tools
  visible_tools-Visible names a named h =
      option_split (λ (z : List ToolDefinition × ReactAgent W). Visible names a z) a.tool_names
        (λ e. absurd (none_ne_some (sym named ∙ e)))
        (λ names' e.
          option_split (λ (z : List ToolDefinition × ReactAgent W). Visible names a z)
            a.visible_cache {x = filtered names'}
            (λ e'.
              let same : names' ≡ names = some_eq (sym e ∙ named) in
              record {
                tools = ap (λ z. keep (is_allowed z) (all_tools a)) same;
                names_kept = named;
                all_kept = refl;
                cached = filtered-IsCached names' e;
              })
            (λ c e'. record {
              tools = h names c named e';
              names_kept = named;
              all_kept = refl;
              cached = h;
            }))
    where
      filtered : List String → List ToolDefinition × ReactAgent W
      filtered ns =
          let ds = keep (is_allowed ns) (all_tools a) in (ds, record a { visible_cache = some ds })

      filtered-IsCached : (ns : List String) → a.tool_names ≡ some ns → IsCached (filtered ns).1
      filtered-IsCached ns e ns' c e1 e2 =
          sym (some_eq e2) ∙ ap (λ z. keep (is_allowed z) (all_tools a)) (some_eq (sym e ∙ e1))

  -- The agents that a run can have, from one without a cache on.
  pub data Used : ReactAgent W → Type 0 where
    uncached : (a : ReactAgent W) → a.visible_cache ≡ none → Used a
    restricted : (names : List String) (a : ReactAgent W) → Used a → Used (with_tools names a)
    asking :
        (es : List (String × RegistryEntry W)) (a : ReactAgent W)
        → Used a
        → Used (enable_human_in_the_loop es a)
    offered : (a : ReactAgent W) → Used a → Used (visible_tools a).1

  -- The definition stands in the entries of a registry.
  abbrev pub Among : ToolDefinition → List (String × RegistryEntry W) → Type 0
  Among d es = (n : String) × (e : RegistryEntry W) × Memᴰ (n, e) es × (e.def ≡ d)

  -- The definition is that of a global tool, or of a tool of the agent's own.
  abbrev pub Known : ReactAgent W → ToolDefinition → Type 0
  Known a d =
      Among d a.registry.tools
      ⊎ ((es : List (String × RegistryEntry W)) × (a.local_tools ≡ some es) × Among d es)
