-- ===== src/Security/Lightning/Htlcs/Flood.antt =====
-- What the window of a channel remembers.
use abundance_protocol.Prelude.{ℕ, ◌≤◌, ◌≡◌, List, [], ◌∷◌, ◌++◌, ltb, length, select, ap, ◌∙◌, sym}
use abundance_protocol.Dict.{lookup-insert_self}
use abundance_protocol.Security.Lightning.{LightningHardening}
use abundance_protocol.Security.Window.{
  is_recent, Ascends, select-append, select-select, append_assoc,
}
use abundance_protocol.Security.Lightning.Htlcs.{window_of, detect_htlc_flood}

-- Calls at these times, one after the other.
abbrev pub detect_all : ℕ → ℕ → List ℕ → LightningHardening → LightningHardening
detect_all channel_id window_ms [] s = s
detect_all channel_id window_ms (now ∷ ts) s =
    detect_all channel_id window_ms ts (detect_htlc_flood channel_id window_ms now s).1

kept_window :
    (w t now : ℕ) (past : List ℕ) {window : List ℕ}
    → t ≤ now
    → window ≡ select (is_recent w t) past
    → select (is_recent w now) (window ++ (now ∷ []))
      ≡ select (is_recent w now) (past ++ (now ∷ []))
kept_window w t now past le e =
    ap (λ v. select (is_recent w now) (v ++ (now ∷ []))) e
    ∙ select-append (is_recent w now) (select (is_recent w t) past) (now ∷ [])
    ∙ ap (λ v. v ++ select (is_recent w now) (now ∷ [])) (select-select w t now past le)
    ∙ sym (select-append (is_recent w now) past (now ∷ []))

window_step :
    (channel_id w t now : ℕ) (past : List ℕ) (s : LightningHardening)
    → t ≤ now
    → window_of channel_id s ≡ select (is_recent w t) past
    → window_of channel_id (detect_htlc_flood channel_id w now s).1
      ≡ select (is_recent w now) (past ++ (now ∷ []))
unfolding detect_htlc_flood
window_step channel_id w t now past s le e =
    rw
      (
        window_of,
        lookup-insert_self channel_id
            (select (is_recent w now) (window_of channel_id s ++ (now ∷ []))) s.htlc_windows,
      )
      (kept_window w t now past le e)

-- A channel's calls are counted exactly: where the window holds those of its past calls that are
-- less than `window_ms` old, then after further calls at times that do not go back the next call
-- reports a flood exactly when more than 100 calls, the past ones and itself among them, fall into
-- the last `window_ms` milliseconds.
pub detect_htlc_flood_exact :
    (channel_id window_ms t now : ℕ) (ts past : List ℕ) (s : LightningHardening)
    → Ascends t (ts ++ (now ∷ []))
    → window_of channel_id s ≡ select (is_recent window_ms t) past
    → (detect_htlc_flood channel_id window_ms now (detect_all channel_id window_ms ts s)).0
      ≡ ltb 100 (length (select (is_recent window_ms now) (past ++ ts ++ (now ∷ []))))
unfolding detect_htlc_flood
detect_htlc_flood_exact channel_id w t now [] past s up e =
    ap (λ v. ltb 100 (length v)) (kept_window w t now past up.0 e)
    ∙ ap (λ v. ltb 100 (length (select (is_recent w now) v)))
        (sym (append_assoc past [] (now ∷ [])))
detect_htlc_flood_exact channel_id w t now (u ∷ ts) past s up e =
    detect_htlc_flood_exact channel_id w u now ts (past ++ (u ∷ []))
      (detect_htlc_flood channel_id w u s).1 up.1 (window_step channel_id w t u past s up.0 e)
    ∙ ap (λ v. ltb 100 (length (select (is_recent w now) (v ++ (now ∷ [])))))
        (append_assoc past (u ∷ []) ts)
