-- ===== src/Auth/Sessions/Rotation.antt =====
-- apps/auth-org-service/src/auth-org-service.service.ts: a refresh token works once, and not after
-- a logout.
use nestjs_saas.Prelude.{
  ℕ, String, Option, some, false, ◌&&◌, List, [], ◌∷◌, Memᴰ, if◌then◌else◌, ◌≡◌, ◌≢◌, refl, sym,
  subst, ◌∙◌, arith, Option-cases, inl, inr, ◌==◌, eq_iff, eq_refl, or_default, is_none, All,
  All-at, All-of_map,
}
use nestjs_saas.Exec.{ok, err, ◌>>=◌, unauthorized}
use nestjs_saas.Prisma.{Prisma}
use nestjs_saas.Js.Text.{trim}
use nestjs_saas.Prisma.Rows.{
  find_first-eq-none, find_first-test, created, All-update_many, All-find_first,
}
use nestjs_saas.Auth.State.{RefreshToken, Db, Env, Crypto, same_refresh_token}
use nestjs_saas.Auth.Sessions.{
  issued, RefreshInputs, Session, is_live, revoke, refresh_session, logout_session,
  logout_all_sessions,
}
use nestjs_saas.Auth.Sessions.Outcome.{Refreshes, refresh_session-Refreshes}

-- The unique index on `RefreshToken.tokenHash`, and the primary key: one hash, one row.
abbrev pub HasDistinctHashes : List RefreshToken → Type 0
HasDistinctHashes rows =
    (t u : RefreshToken) → Memᴰ t rows → Memᴰ u rows → t.token_hash ≡ u.token_hash → t.id ≡ u.id

abbrev pub HasNoLive : String → List RefreshToken → Type 0
HasNoLive hash rows = All (λ t. is_live hash t ≡ false) rows

-- Revoking the row of a hash leaves no live row with it.
revoked_everywhere :
    (hash : String) (tokens : List RefreshToken) (session : RefreshToken) (at : ℕ)
    (rows : List RefreshToken)
    → session.token_hash ≡ hash
    → HasDistinctHashes tokens
    → Memᴰ session tokens
    → ((t : RefreshToken) → Memᴰ t rows → Memᴰ t tokens)
    → All
        (λ t.
          is_live hash (if t.id == session.id then record t { revoked_at = some at } else t)
          ≡ false)
        rows
revoked_everywhere hash tokens session at [] same distinct listed sub = tt
revoked_everywhere hash tokens session at (t ∷ rows) same distinct listed sub = (
  ground (
    arith,
    eq_iff t.id session.id,
    eq_iff t.token_hash hash,
    distinct t session (sub t (Memᴰ.head refl)) listed,
  ),
  revoked_everywhere hash tokens session at rows same distinct listed (λ u m. sub u (Memᴰ.tail m)),
)

revoked_of_user :
    (uid tid : String) (now : ℕ) (rows : List RefreshToken)
    → All (λ t. t.user_id ≡ uid → t.tenant_id ≡ tid) rows
    → All
        (λ t.
          let u : RefreshToken =
            if (t.user_id == uid) && (t.tenant_id == tid) && is_none t.revoked_at
            then record t { revoked_at = some now }
            else t in
          u.user_id ≡ uid → is_none u.revoked_at ≡ false)
        rows
revoked_of_user uid tid now [] own = tt
revoked_of_user uid tid now (t ∷ rows) own = (
  ground (arith, own.0, eq_iff t.user_id uid, eq_iff t.tenant_id tid),
  revoked_of_user uid tid now rows own.1,
)

not_live : (hash : String) (t : RefreshToken) → t.token_hash ≢ hash → is_live hash t ≡ false
not_live hash t other = ground (arith, eq_iff t.token_hash hash)

module _ (prisma : Prisma) (env : Env) (crypto : Crypto) where
  abbrev hash_of : Option String → String
  hash_of token = crypto.sha256_hex (trim (or_default token ""))

  -- With no live row, the token is refused and nothing changes.
  refused :
      (token : Option String) (inputs : RefreshInputs) (db : Db)
      → trim (or_default token "") ≢ ""
      → HasNoLive (hash_of token) db.refresh_tokens
      → refresh_session prisma env crypto token inputs db
        ≡ (err (unauthorized "Invalid or expired refresh token"), db)
  unfolding ◌>>=◌ refresh_session
  refused token inputs db given gone =
      let missing = find_first-eq-none prisma (is_live (hash_of token)) db.refresh_tokens gone in
      ground (arith, missing, eq_iff (trim (or_default token "")) "")

  session_hash :
      (hash : String) (rows : List RefreshToken) (session : RefreshToken)
      → prisma.find_first (is_live hash) rows ≡ some session
      → session.token_hash ≡ hash
  session_hash hash rows session e =
      let met = find_first-test prisma (is_live hash) rows session e in
      ground (arith, met, eq_iff session.token_hash hash)

  -- A changed row clashes with the new token as the row did.
  new_hash :
      (new session : RefreshToken) (at : ℕ) (rows : List RefreshToken)
      → Memᴰ session rows
      → All
          (λ t.
            same_refresh_token new
              (if t.id == session.id then record t { revoked_at = some at } else t)
            ≡ false)
          rows
      → session.token_hash ≢ new.token_hash
  new_hash new session at rows listed h =
      let free = All-at _ rows h listed in
      λ e. ground (arith, free, eq_iff session.token_hash new.token_hash)

  revoked_gone :
      (hash : String) (rows : List RefreshToken) (session : RefreshToken) (at : ℕ)
      → session.token_hash ≡ hash
      → HasDistinctHashes rows
      → Memᴰ session rows
      → HasNoLive hash
          (prisma.update_many (λ t. t.id == session.id) (revoke prisma env crypto at) rows).1
  revoked_gone hash rows session at same distinct listed =
      All-update_many prisma (λ t. is_live hash t ≡ false) _ _ rows
        (revoked_everywhere hash rows session at rows same distinct listed (λ t m. m))

  refreshed_gone :
      (token : Option String) (inputs : RefreshInputs) (db db' : Db) (r : Session)
      → HasDistinctHashes db.refresh_tokens
      → Refreshes prisma env crypto token inputs db r db'
      → HasNoLive (hash_of token) db'.refresh_tokens
  refreshed_gone token inputs db db' r distinct a =
      let rows = db.refresh_tokens in
      let s = a.session in
      let new : RefreshToken =
        issued prisma env crypto inputs.row_id s.user_id s.tenant_id inputs.raw_token
          a.expires_at in
      let (shape, apart) = created prisma _ new _ a.tokens in
      let listed = (prisma.find_first_sound _ _ s a.found).1 in
      let same = session_hash (hash_of token) rows s a.found in
      let differs =
        new_hash new s inputs.revoked_at rows listed
          (All-of_map _ _ rows (rw prisma.update_many_lem at apart)) in
      rw shape (
        not_live (hash_of token) new (λ e. differs (same ∙ sym e)),
        revoked_gone (hash_of token) rows s inputs.revoked_at same distinct listed,
      )

  -- Where hashes are unique, as the schema says, a refresh token that was exchanged for a new
  -- session is refused from then on, without any change to the data.
  pub refresh_session_once :
      (token : Option String) (inputs later : RefreshInputs) (db db' : Db) (r : Session)
      → HasDistinctHashes db.refresh_tokens
      → refresh_session prisma env crypto token inputs db ≡ (ok r, db')
      → refresh_session prisma env crypto token later db'
        ≡ (err (unauthorized "Invalid or expired refresh token"), db')
  refresh_session_once token inputs later db db' r distinct e =
      let a = refresh_session-Refreshes prisma env crypto token inputs db r db' e in
      refused token later db' (λ blank. cc (a.given, eq_refl (trim (or_default token "")), blank))
        (refreshed_gone token inputs db db' r distinct a)

  -- What `logoutSession` leaves behind.
  logged_out_gone :
      (token : Option String) (now : ℕ) (db db' : Db)
      → HasDistinctHashes db.refresh_tokens
      → logout_session prisma env crypto token now db ≡ (ok tt, db')
      → ((trim (or_default token "") == "") ≡ false) × HasNoLive (hash_of token) db'.refresh_tokens
  unfolding ◌>>=◌ logout_session
  logged_out_gone token now db db' distinct e =
      elim (Option-cases (prisma.find_first (is_live (hash_of token)) db.refresh_tokens)) [
        | inl missing ↦
            let gone = prisma.find_first_complete _ db.refresh_tokens missing in
            let same : db.refresh_tokens ≡ db'.refresh_tokens = ground arith in
            (ground arith, subst (HasNoLive (hash_of token)) same gone)
        | inr (session, found) ↦
            let rows = db.refresh_tokens in
            let listed = (prisma.find_first_sound _ _ session found).1 in
            let gone =
              revoked_gone (hash_of token) rows session now
                (session_hash (hash_of token) rows session found) distinct listed in
            let same : (prisma.update_many (λ t. t.id == session.id) (revoke prisma env crypto now)
                  rows).1
                ≡ db'.refresh_tokens =
              ground arith in
            (ground arith, subst (HasNoLive (hash_of token)) same gone)
      ]

  -- Where hashes are unique, a refresh token that a logout was answered for, also one that is unknown,
  -- is refused from then on, without any change to the data.
  pub logout_session_refused :
      (token : Option String) (now : ℕ) (later : RefreshInputs) (db db' : Db)
      → HasDistinctHashes db.refresh_tokens
      → logout_session prisma env crypto token now db ≡ (ok tt, db')
      → refresh_session prisma env crypto token later db'
        ≡ (err (unauthorized "Invalid or expired refresh token"), db')
  logout_session_refused token now later db db' distinct e =
      let (given, gone) = logged_out_gone token now db db' distinct e in
      refused token later db' (λ blank. cc (given, eq_refl (trim (or_default token "")), blank))
        gone

  logged_out_all :
      (uid tid : String) (now : ℕ) (db db' : Db)
      → logout_all_sessions prisma env crypto (some uid) (some tid) now db ≡ (ok tt, db')
      → db'.refresh_tokens
        ≡ (prisma.update_many
            (λ t. (t.user_id == trim uid) && (t.tenant_id == trim tid) && is_none t.revoked_at)
            (revoke prisma env crypto now)
            db.refresh_tokens).1
  unfolding ◌>>=◌ logout_all_sessions
  logged_out_all uid tid now db db' e = ground arith

  -- After a logout from all sessions no refresh token of the user works any more, if the user's
  -- tokens all name the user's tenant, as `login` writes them.
  pub logout_all_sessions_refused :
      (uid tid : String) (token : Option String) (now : ℕ) (later : RefreshInputs)
      (db db' db'' : Db) (r : Session)
      → All (λ t. t.user_id ≡ trim uid → t.tenant_id ≡ trim tid) db.refresh_tokens
      → logout_all_sessions prisma env crypto (some uid) (some tid) now db ≡ (ok tt, db')
      → refresh_session prisma env crypto token later db' ≡ (ok r, db'')
      → r.user.user_id ≢ trim uid
  logout_all_sessions_refused uid tid token now later db db' db'' r own e e' =
      let a = refresh_session-Refreshes prisma env crypto token later db' r db'' e' in
      let live = find_first-test prisma _ db'.refresh_tokens a.session a.found in
      let owner = find_first-test prisma _ db'.users a.user a.owner in
      let revoked =
        All-find_first prisma (λ t. t.user_id ≡ trim uid → is_none t.revoked_at ≡ false) _
          db'.refresh_tokens a.session
          (rw (logged_out_all uid tid now db db' e) (
            All-update_many prisma _ _ _ db.refresh_tokens
              (revoked_of_user (trim uid) (trim tid) now db.refresh_tokens own)))
          a.found in
      λ same. ground (arith, live, owner, revoked, a.result, eq_iff a.user.id a.session.user_id)
