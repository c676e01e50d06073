-- ===== src/Session/Resend.antt =====
-- Requests for a verification mail (`sendverifyEmail` of src/modules/user/user.service.ts), one after
-- another.
use text.Mathlib.TextLemmas.{append_cancel_right}
use u2u_marketplace_api.Common.{
  ℕ, ◌+◌, ◌<◌, String, ◌≡◌, ◌≢◌, refl, sym, ap, ◌∙◌, inl, inr, Bool, true, false, some, List, [],
  ◌∷◌, ◌++◌, arith, lt→ltb, ◌===◌, String_eq, ===-ne, ===_sym, ◌/◌, Bool-cases, Option-cases, find,
  All, All-append,
}
use u2u_marketplace_api.Database.{Prisma}
use u2u_marketplace_api.Database.Rows.{find-true}
use u2u_marketplace_api.Database.Schema.{User, Db, Outcome, done}
use u2u_marketplace_api.Metric.Handlers.{has_id}
use u2u_marketplace_api.User.Follow.{is_value}
use u2u_marketplace_api.Session.{
  Redis, of_email, EmailRecord, session_key, store_object_session, get_session_info,
  get_session-set_ex,
}
use u2u_marketplace_api.Session.Email.{
  Mail, Found, nothing, broken, emails, SignMail, email_key, email_record, check_record, mail_token,
  mail_once, sendverify_email,
}

pub record Ask : Type 0 where
  pub email : String
  pub user_id : ℕ
  pub now : ℕ

email_key-eq : (a b : String) → (email_key a === email_key b) ≡ true → a ≡ b
email_key-eq a b h = append_cancel_right a b "-Verify" ((String_eq.beq_iff _ _).0 h)

module _ (redis : Redis) (prisma : Prisma) (sign : SignMail) (db : Db) where
  open redis use {Store, reachable, get}

  -- The mails of a sequence of requests.
  unfoldable pub mails : List Ask → Store → List Mail
  mails [] store = []
  mails (ask ∷ asks) store =
      let (_, after, sent) =
        sendverify_email redis prisma sign ask.email ask.user_id ask.now db store in
      sent ++ mails asks after

  -- A record for a user stands in the store until a time.
  abbrev pub Waits : User → ℕ → Store → Type 0
  Waits user until store =
      (t : ℕ)
      → t < until
      → (r : EmailRecord) × (get (session_key (email_key user.signer)) t store ≡ some (of_email r))

  abbrev Calm : User → ℕ → Outcome Bool × Store × List Mail → Type 0
  Calm user until r = Waits user until r.1 × All (λ (m : Mail). m.id ≢ user.id) r.2

  -- Where a record stands for the signer, nothing is sent.
  once-waiting :
      (email : String) (u : User) (now : ℕ) (store : Store) (r : EmailRecord)
      → get (session_key (email_key u.signer)) now store ≡ some (of_email r)
      → ((mail_once redis sign email u now store).1 ≡ store)
        × ((mail_once redis sign email u now store).2 ≡ [])
  unfolding mail_once check_record get_session_info mail_token store_object_session
  once-waiting email u now store r e = elim (Bool-cases (reachable now)) [
    | inl t ↦ rw (t, e, mail_once, check_record, get_session_info) (refl, refl)
    | inr f ↦
        rw (f, mail_once, check_record, get_session_info)
          (rw (f, mail_token, store_object_session) (refl, refl))
  ]

  -- A mail for another signer leaves the record.
  other-Waits :
      (user u : User) (until now : ℕ) (record_now : EmailRecord) (store : Store)
      → (email_key u.signer === email_key user.signer) ≡ false
      → Waits user until store
      → Waits user until
          (redis.set_ex (session_key (email_key u.signer)) (of_email record_now) 60 now store)
  other-Waits user u until now record_now store other w t early =
      let (r, e) = w t early in
      (
        r,
        get_session-set_ex redis (email_key u.signer) (email_key user.signer) (of_email record_now)
              60 now t store
            ∙ rw (===_sym (email_key u.signer) (email_key user.signer) other) e,
      )

  once-Calm :
      (email : String) (user u : User) (until now : ℕ) (store : Store)
      → (email_key u.signer === email_key user.signer) ≡ false
      → u.id ≢ user.id
      → Waits user until store
      → Calm user until (mail_once redis sign email u now store)
  unfolding mail_once mail_token store_object_session
  once-Calm email user u until now store other differs w =
      go (check_record redis (email_key u.signer) now store) refl
    where
      go :
          (found : Found)
          → check_record redis (email_key u.signer) now store ≡ found
          → Calm user until (mail_once redis sign email u now store)
      go nothing e = elim (Bool-cases (reachable now)) [
        | inl t ↦
            rw (e, t, mail_once, mail_token, store_object_session)
              (other-Waits user u until now _ store other w, (differs, tt))
        | inr f ↦ rw (e, f, mail_once, mail_token, store_object_session) (w, tt)
      ]
      go broken e = rw (e, mail_once) (w, tt)
      go (emails r) e = rw (e, mail_once) (w, tt)

  send-Calm :
      (user : User) (until : ℕ) (ask : Ask) (store : Store)
      → find (has_id user.id) db.users ≡ some user
      → ask.now < until
      → Waits user until store
      → Calm user until (sendverify_email redis prisma sign ask.email ask.user_id ask.now db store)
  unfolding sendverify_email
  send-Calm user until ask store own early w =
      let law = prisma.find_first_law (has_id ask.user_id) db.users in
      elim (Option-cases (find (has_id ask.user_id) db.users)) [
        | inl n ↦ rw (law ∙ n, sendverify_email) (w, tt)
        | inr (u, e) ↦ elim (Bool-cases (is_value ask.email u.email)) [
          | inr f ↦ rw (law ∙ e, f, sendverify_email) (w, tt)
          | inl t ↦
              rw (law ∙ e, t, sendverify_email)
                (elim (Bool-cases (email_key u.signer === email_key user.signer)) [
                  | inl s ↦
                      let (r, g) = w ask.now early in
                      let (kept, silent) =
                        once-waiting ask.email u ask.now store r
                          (rw (email_key-eq u.signer user.signer s) g) in
                      rw (kept, silent) (w, tt)
                  | inr s ↦
                      once-Calm ask.email user u until ask.now store s
                        (λ i.
                          ===-ne (email_key u.signer) (email_key user.signer) s
                            (ap (λ (x : User). email_key x.signer) (one_row ask.user_id u e i)))
                        w
                ])
        ]
      ]
    where
      one_row : (id : ℕ) (u : User) → find (has_id id) db.users ≡ some u → u.id ≡ user.id → u ≡ user
      one_row id u e i =
          let named : id ≡ u.id = let t = find-true (has_id id) db.users e in ground arith in
          let same : some u ≡ some user = sym (rw (named ∙ i) at e) ∙ own in cc same

  mails-quiet :
      (user : User) (until : ℕ) (asks : List Ask) (store : Store)
      → find (has_id user.id) db.users ≡ some user
      → All (λ (a : Ask). a.now < until) asks
      → Waits user until store
      → All (λ (m : Mail). m.id ≢ user.id) (mails asks store)
  unfolding mails
  mails-quiet user until [] store own early w = tt
  mails-quiet user until (ask ∷ asks) store own (first, early) w =
      let (waits, silent) = send-Calm user until ask store own first w in
      All-append (λ (m : Mail). m.id ≢ user.id) _ _ silent
        (mails-quiet user until asks _ own early waits)

  -- After a request that mails a token to a user, no mail goes to this user for a minute, whoever
  -- asks for whichever emails in this time.
  pub mails_once_a_minute :
      (email : String) (user : User) (now : ℕ) (asks : List Ask) (store : Store)
      → find (has_id user.id) db.users ≡ some user
      → (sendverify_email redis prisma sign email user.id now db store).0 ≡ done true
      → All (λ (a : Ask). a.now < now + 60000) asks
      → All
          (λ (m : Mail). m.id ≢ user.id)
          (mails asks (sendverify_email redis prisma sign email user.id now db store).1)
  unfolding sendverify_email mail_once mail_token store_object_session
  mails_once_a_minute email user now asks store own h early =
      mails-quiet user (now + 60000) asks _ own early (λ t soon. begun t soon)
    where
      begun :
          (t : ℕ)
          → t < now + 60000
          → (r : EmailRecord) × (get
                (session_key (email_key user.signer))
                t
                (sendverify_email redis prisma sign email user.id now db store).1
              ≡ some (of_email r))
      begun t soon =
          let law = prisma.find_first_law (has_id user.id) db.users ∙ own in
          elim (Bool-cases (is_value email user.email)) [
            | inr f ↦ absurd (cc (rw (law, f, sendverify_email) at h))
            | inl m ↦ go law m (check_record redis (email_key user.signer) now store) refl
          ]
        where
          go :
              prisma.find_first (has_id user.id) db.users ≡ some user
              → is_value email user.email ≡ true
              → (found : Found) → check_record redis (email_key user.signer) now store ≡ found
              → (r : EmailRecord) × (get
                    (session_key (email_key user.signer))
                    t
                    (sendverify_email redis prisma sign email user.id now db store).1
                  ≡ some (of_email r))
          go law m broken e = absurd (cc (rw (law, m, e, sendverify_email, mail_once) at h))
          go law m (emails r) e = absurd (cc (rw (law, m, e, sendverify_email, mail_once) at h))
          go law m nothing e = elim (Bool-cases (reachable now)) [
            | inr f ↦ absurd (
                cc (
                  rw (law, m, e, f, sendverify_email, mail_once, mail_token, store_object_session)
                    at h))
            | inl r ↦
                rw (law, m, e, r, sendverify_email, mail_once, mail_token, store_object_session)
                  (
                    email_record email (sign user.email user.username user.id (now / 1000)) user.id
                        now,
                    get_session-set_ex redis (email_key user.signer) (email_key user.signer)
                          (of_email (
                            email_record email (sign user.email user.username user.id (now / 1000))
                              user.id now))
                          60 now t store
                        ∙ rw
                            (
                              (String_eq.beq_iff (email_key user.signer) (email_key user.signer)).1
                                  refl,
                              lt→ltb t (now + 60000) soon,
                            )
                            refl,
                  )
          ]
