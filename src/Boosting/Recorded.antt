-- ===== src/Boosting/Recorded.antt =====
-- apps/server/src/steam/boost-session-tracker.ts: the session that is open after a status.
use steam_bee.Common.{
  ℕ, ◌≡◌, refl, sym, ap, subst, ◌∙◌, true, false, not, ◌&&◌, Option, none, some, List, [], ◌∷◌,
  arith, if◌then◌else◌, length, keep_if, if-intro,
}
use steam_bee.Common.Maps.{lookup}
use steam_bee.Worker.{Status, is_boosting}
use steam_bee.Boosting.{
  Session, StopReason, Tables, Activity, Outside, is_open, end_boost_session, is_idle, is_farming,
  is_unchanged, same_ids, same_preset, normalize_app_ids, played_app_ids, open_session,
  start_boost_session, track_boost_session, selection_changed,
}
use steam_bee.Boosting.Normal.{includes, includes-normalize_app_ids}
use steam_bee.Boosting.Rows.{open_count-map-zero, others_of, others-map}
use steam_bee.Boosting.Tracked.{ended, ended-closed}

-- The preset that a session is attributed to.
abbrev pub preset_of : Outside → Activity → Option ℕ → Option ℕ
preset_of o x active =
    if o.preset_exists then (if is_farming x.mode then none else active) else none

-- One open session, of this preset and these games.
pub record Plays (account : ℕ) (preset : Option ℕ) (app_ids : List ℕ) (ss : List Session)
    : Type 0 where
  pub session : Session
  pub only : keep_if (is_open account) ss ≡ session ∷ []
  pub attributed : session.preset ≡ preset
  pub games : (x : ℕ) → includes x session.app_ids ≡ includes x app_ids

same_ids-eq : (xs ys : List ℕ) → same_ids xs ys ≡ true → xs ≡ ys
same_ids-eq [] [] e = refl
same_ids-eq [] (y ∷ ys) e = cc
same_ids-eq (x ∷ xs) [] e = cc
same_ids-eq (x ∷ xs) (y ∷ ys) e = ground (arith, e, same_ids-eq xs ys)

same_preset-eq : (p q : Option ℕ) → same_preset p q ≡ true → p ≡ q
same_preset-eq p q e = ground (arith, e)

unchanged-Plays :
    (account : ℕ) (preset : Option ℕ) (app_ids : List ℕ) (ss found : List Session)
    → keep_if (is_open account) ss ≡ found
    → is_unchanged preset app_ids found ≡ true
    → Plays account preset app_ids ss
unchanged-Plays account preset app_ids ss [] f e = cc
unchanged-Plays account preset app_ids ss (s ∷ []) f e =
    let same = same_ids-eq (normalize_app_ids s.app_ids) app_ids (ground (arith, e)) in
    record {
      session = s;
      only = f;
      attributed = same_preset-eq s.preset preset (ground (arith, e));
      games = λ x. sym (includes-normalize_app_ids x s.app_ids) ∙ ap (includes x) same;
    }
unchanged-Plays account preset app_ids ss (s ∷ r ∷ rs) f e = cc

empty-eq : (xs : List Session) → length xs ≡ 0 → xs ≡ []
empty-eq [] e = refl
empty-eq (x ∷ xs) e = cc

module _ (account now : ℕ) (ss : List Session) where
  end_boost_session-closed :
      (reason : StopReason)
      → keep_if (is_open account) (end_boost_session account reason now ss) ≡ []
  unfolding end_boost_session
  end_boost_session-closed reason =
      empty-eq _ (
        open_count-map-zero (ended reason now account) account ss (ended-closed reason now account))

  end_boost_session-others :
      (reason : StopReason)
      → others_of account (end_boost_session account reason now ss) ≡ others_of account ss
  unfolding end_boost_session
  end_boost_session-others reason =
      others-map (ended reason now account) account ss (λ s e. ground (arith, e))
        (λ s. ground arith)

  open_session-Plays :
      (preset : Option ℕ) (app_ids : List ℕ)
      → Plays account preset app_ids (open_session account now preset app_ids ss)
  unfolding open_session
  open_session-Plays preset app_ids =
      let closed = end_boost_session-closed selection_changed in
      if-intro (Plays account preset app_ids)
        (is_unchanged preset app_ids (keep_if (is_open account) ss))
        (λ e. unchanged-Plays account preset app_ids ss _ refl e)
        (λ e. record {
          session = record {
            account = account;
            preset = preset;
            app_ids = app_ids;
            started_at = now;
            ended_at = none;
            stop_reason = none;
            last_seen_at = some now;
          };
          only = ground (arith, closed);
          attributed = refl;
          games = λ x. refl;
        })

  open_session-others :
      (preset : Option ℕ) (app_ids : List ℕ)
      → others_of account (open_session account now preset app_ids ss) ≡ others_of account ss
  unfolding open_session
  open_session-others preset app_ids = ground (arith, end_boost_session-others selection_changed)

start_boost_session-eq :
    (o : Outside) (account : ℕ) (x : Activity) (t : Tables) (active : Option ℕ)
    → lookup account t.accounts ≡ some active
    → (start_boost_session o account x t).sessions
      ≡ open_session account o.now (preset_of o x active) (played_app_ids o x) t.sessions
unfolding start_boost_session
start_boost_session-eq o account x t active e = rw (start_boost_session, e) refl

-- What a status leaves: the session that is played, or none; and the rows of the other accounts.
pub record IsRecorded (o : Outside) (account : ℕ) (status : Status) (x : Activity)
    (active : Option ℕ) (before after : List Session) : Type 0 where
  pub plays :
      (is_boosting status && not (is_idle x.mode)) ≡ true
      → Plays account (preset_of o x active) (played_app_ids o x) after
  pub rests :
      (is_boosting status && not (is_idle x.mode)) ≡ false → keep_if (is_open account) after ≡ []
  pub others : others_of account after ≡ others_of account before

-- After a status of an account that exists, the account has one open session when it boosts and is not
-- idle, of the preset and the games that it plays, and no open session otherwise; and the rows of the
-- other accounts are as they were.
pub track_boost_session-IsRecorded :
    (o : Outside) (account : ℕ) (status : Status) (x : Activity) (t : Tables) (active : Option ℕ)
    → lookup account t.accounts ≡ some active
    → IsRecorded o account status x active t.sessions
        (track_boost_session o account status x t).sessions
unfolding track_boost_session
track_boost_session-IsRecorded o account status x t active e =
    let preset = preset_of o x active in
    let started = start_boost_session-eq o account x t active e in
    if-intro (λ (r : Tables). IsRecorded o account status x active t.sessions r.sessions)
      (is_boosting status && not (is_idle x.mode))
      (λ h. record {
        plays = λ g.
            subst (Plays account preset (played_app_ids o x)) (sym started)
              (open_session-Plays account o.now t.sessions preset (played_app_ids o x));
        rests = λ g. ground (arith, g, h);
        others =
            ap (others_of account) started
            ∙ open_session-others account o.now t.sessions preset (played_app_ids o x);
      })
      (λ h. record {
        plays = λ g. ground (arith, g, h);
        rests = λ g. end_boost_session-closed account o.now t.sessions _;
        others = end_boost_session-others account o.now t.sessions _;
      })
