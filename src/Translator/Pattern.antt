-- ===== src/Translator/Pattern.antt =====
-- Hostname globs as Lua patterns.
use route_prism.Common.{
  ℕ, Bool, [], ◌∷◌, ◌++◌, any, ◌==◌, if◌then◌else◌, drop, has_prefix, Str, codes,
}

-- The characters that `luaSpecialRe` matches.
abbrev pub is_magic : ℕ → Bool
is_magic c = any (λ m. m == c) (codes "%^$().[]*+-?")

-- `luaPatternEscape`
unfoldable pub lua_pattern_escape : Str → Str
lua_pattern_escape [] = []
lua_pattern_escape (c ∷ s) =
    let rest = lua_pattern_escape s in if is_magic c then b'%' ∷ c ∷ rest else c ∷ rest

-- `hostnameGlobToLuaPattern`
unfoldable pub hostname_glob_to_lua_pattern : Str → Str
unfolding lua_pattern_escape
hostname_glob_to_lua_pattern glob =
    if has_prefix glob (codes "*.")
    then codes "^[^.]+%." ++ lua_pattern_escape (drop 2 glob) ++ codes "$"
    else codes "^" ++ lua_pattern_escape glob ++ codes "$"
