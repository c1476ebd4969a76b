-- ===== src/Runtime/Framing/Tests.antt =====
-- Frames of `frameRuntimeChallenge`, apps/orchestrator/src/cloud-run-runtime-service.ts, with an encoder
-- that writes a character as its code.
use Prim.Native.Char.{Char, code}
use Prim.Native.String.{◌++◌ as ◌<>◌}
use Prim.Native.String.append.{nil, cons}
use scribe_drop.Common.{ℕ, ◌<◌, ◌≡◌, refl, String, List, [], ◌∷◌, ◌++◌, map}
use scribe_drop.Runtime.Framing.{framed_text}
use scribe_drop.Runtime.Framing.Apart.{frame-apart}

abbrev codes : String → List ℕ
codes String.[] = []
codes (String.◌∷◌ c s) = code c ∷ codes s

codes-joined : (s t : String) → codes (s <> t) ≡ codes s ++ codes t
codes-joined String.[] t = rw (nil t) refl
codes-joined (String.◌∷◌ c s) t = rw (cons c s t, codes-joined s t) refl

codes-ascii : (c : Char) → code c < 128 → codes (String.◌∷◌ c String.[]) ≡ code c ∷ []
codes-ascii c h = refl

framed_pair : framed_text codes ("heartbeat!" ∷ "b" ∷ []) ≡ "10:heartbeat!1:b"
unfolding framed_text
framed_pair = refl

frame-apart_example : map codes ("session" ∷ "a:1" ∷ []) ≡ map codes ("session" ∷ "a:1" ∷ [])
frame-apart_example =
    frame-apart codes codes-joined codes-ascii ("session" ∷ "a:1" ∷ []) ("session" ∷ "a:1" ∷ [])
      refl
