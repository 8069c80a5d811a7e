-- ===== src/StrictJson/Tests.antt =====
-- Bodies that repeat a key, in an escape or within one object only, and bodies that do not.
use mcp_authz.Base.{true, false, ◌≡◌, refl}
use mcp_authz.StrictJson.{has_duplicate_key}

repeats : has_duplicate_key "{\"a\":1,\"b\":[],\"a\" :2}" ≡ true
unfolding has_duplicate_key
repeats = refl

escapes : has_duplicate_key "{\"name\":1,\"na\\u006de\":2}" ≡ true
unfolding has_duplicate_key
escapes = refl

nested : has_duplicate_key "{\"a\":{\"a\":1},\"b\":[{\"a\":2}]}" ≡ false
unfolding has_duplicate_key
nested = refl

values : has_duplicate_key "{\"a\":\"a\",\"b\":\"a\\\"\"}" ≡ false
unfolding has_duplicate_key
values = refl
