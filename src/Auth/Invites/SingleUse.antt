-- ===== src/Auth/Invites/SingleUse.antt =====
-- apps/auth-org-service/src/auth-org-service.service.ts: an invite makes one user, whoever tries.
use nestjs_saas.Prelude.{
  ℕ, String, some, true, List, [], ◌∷◌, map, Memᴰ, if◌then◌else◌, ◌≡◌, ◌≢◌, refl, ◌∙◌, arith, ◌==◌,
  eq_iff, is_some, All,
}
use nestjs_saas.Exec.{ok}
use nestjs_saas.Prisma.{Prisma}
use nestjs_saas.Prisma.Rows.{All-find_first, find_first-test}
use nestjs_saas.Auth.State.{Invite, Db, Env, Crypto}
use nestjs_saas.Auth.Invites.{AcceptInvite, AcceptInputs, AcceptedInvite, accept_invite}
use nestjs_saas.Auth.Invites.Outcome.{Accepts, accept_invite-Accepts}

-- The unique index on `Invite.token`, and the primary key: one token, one row.
abbrev pub HasDistinctTokens : List Invite → Type 0
HasDistinctTokens invites =
    (i j : Invite) → Memᴰ i invites → Memᴰ j invites → i.token ≡ j.token → i.id ≡ j.id

-- After the update every row with the accepted token is used.
used_everywhere :
    (invites : List Invite) (invite : Invite) (at : ℕ) (rows : List Invite)
    → HasDistinctTokens invites
    → Memᴰ invite invites
    → ((i : Invite) → Memᴰ i rows → Memᴰ i invites)
    → All
        (λ i. i.token ≡ invite.token → is_some i.used_at ≡ true)
        (map (λ i. if i.id == invite.id then record i { used_at = some at } else i) rows)
used_everywhere invites invite at [] distinct listed sub = tt
used_everywhere invites invite at (i ∷ rows) distinct listed sub = (
  λ same. ground (arith, eq_iff i.id invite.id, distinct i invite (sub i (Memᴰ.head refl)) listed),
  used_everywhere invites invite at rows distinct listed (λ j m. sub j (Memᴰ.tail m)),
)

module _ (prisma : Prisma) (env : Env) (crypto : Crypto) where
  token_of_found :
      (token : String) (invites : List Invite) (i : Invite)
      → prisma.find_first (λ i. i.token == token) invites ≡ some i
      → i.token ≡ token
  token_of_found token invites i e =
      (eq_iff i.token token).0 (find_first-test prisma (λ i. i.token == token) invites i e)

  accepted_used :
      (payload : AcceptInvite) (inputs : AcceptInputs) (db db' : Db) (r : AcceptedInvite)
      → HasDistinctTokens db.invites
      → Accepts prisma env crypto payload inputs db r db'
      → All (λ i. i.token ≡ payload.token → is_some i.used_at ≡ true) db'.invites
  accepted_used payload inputs db db' r distinct a =
      rw
        (
          a.invites,
          prisma.update_many_lem,
          ← token_of_found payload.token db.invites a.invite a.found,
        )
        (used_everywhere db.invites a.invite inputs.used_at db.invites distinct
          (prisma.find_first_sound _ db.invites a.invite a.found).1 (λ i m. m))

  -- Where tokens are unique, as the schema says, an invite that was accepted cannot be accepted
  -- again: whoever tries the same token later, with whatever name and password, fails.
  pub accept_invite_once :
      (payload again : AcceptInvite) (inputs later : AcceptInputs) (db db' db'' : Db)
      (r r' : AcceptedInvite)
      → HasDistinctTokens db.invites
      → accept_invite prisma env crypto payload inputs db ≡ (ok r, db')
      → again.token ≡ payload.token
      → accept_invite prisma env crypto again later db' ≢ (ok r', db'')
  accept_invite_once payload again inputs later db db' db'' r r' distinct e same e' =
      let a = accept_invite-Accepts prisma env crypto payload inputs db r db' e in
      let b = accept_invite-Accepts prisma env crypto again later db' r' db'' e' in
      let used =
        All-find_first prisma (λ i. i.token ≡ payload.token → is_some i.used_at ≡ true)
          (λ i. i.token == again.token) db'.invites b.invite
          (accepted_used payload inputs db db' r distinct a) b.found in
      cc (used (token_of_found again.token db'.invites b.invite b.found ∙ same), b.unused)
