-- ===== src/Channel/Secure.antt =====
-- What a channel keeps of the numbers that a run released and signed, request by request.
use vls.Prelude.{
  ℕ, ◌+◌, ◌≤◌, ◌<◌, ◌≡◌, refl, sym, ◌⊎◌, inl, Bool, true, false, Option, none, some, List, [], ◌∷◌,
  All, arith, if◌then◌else◌, Outcome, ok, err, panic, ValidationErrorKind,
}
use vls.Enforcement.Numbers.{num_end}
use vls.Channel.{Channel}
use vls.Channel.Requests.{settle}
use vls.Channel.Effects.{SameHolder}
use vls.Channel.Run.{released_by}

-- Released commitments are two before the next one, a signed one is the last one.
pub record Secure (released signed : List ℕ) (c : Channel) : Type 0 where
  pub bound : c.enforcement_state.next_holder_commit_num ≤ num_end
  pub old : All (λ (n : ℕ). n + 2 ≤ c.enforcement_state.next_holder_commit_num) released
  pub last :
      All
        (λ (n : ℕ).
          (n + 1 ≡ c.enforcement_state.next_holder_commit_num)
          × (c.enforcement_state.channel_closed ≡ true))
        signed

pub All-old :
    (m n : ℕ) (l : List ℕ) → m ≤ n → All (λ (k : ℕ). k + 2 ≤ m) l → All (λ (k : ℕ). k + 2 ≤ n) l
All-old m n [] h a = tt
All-old m n (k ∷ l) h a = (omega arith, All-old m n l h a.1)

-- No commitment was signed while the channel is not closed.
pub All-last :
    (m n : ℕ) (a b : Bool) (l : List ℕ)
    → ((m ≡ n) × (b ≡ a)) ⊎ (a ≡ false)
    → All (λ (k : ℕ). (k + 1 ≡ m) × (a ≡ true)) l
    → All (λ (k : ℕ). (k + 1 ≡ n) × (b ≡ true)) l
All-last m n a b [] h x = tt
All-last m n a b (k ∷ l) h x = (ground (arith, h, x.0), All-last m n a b l h x.1)

pub Secure-same :
    (released signed : List ℕ) (c d : Channel)
    → SameHolder c d
    → Secure released signed c
    → Secure released signed d
Secure-same released signed c d e s = record {
  bound = omega (arith, e.num, s.bound);
  old = All-old _ _ released (omega (arith, e.num)) s.old;
  last = All-last _ _ _ _ signed (inl (sym e.num, e.closed)) s.last;
}

pub Secure-sign :
    (released signed : List ℕ) (c d : Channel) (num : ℕ)
    → Secure released signed c
    → (num + 1 ≡ c.enforcement_state.next_holder_commit_num)
      × (d.enforcement_state.next_holder_commit_num ≡ c.enforcement_state.next_holder_commit_num)
      × (d.enforcement_state.channel_closed ≡ true)
    → Secure released (num ∷ signed) d × Secure released signed d
Secure-sign released signed c d num s (is, same, closed) =
    let kept = All-signed signed s.last in
    let t : Secure released signed d = record {
      bound = omega (arith, same, s.bound);
      old = All-old _ _ released (omega (arith, same)) s.old;
      last = kept;
    } in
    (record { bound = t.bound; old = t.old; last = ((omega arith, closed), kept) }, t)
  where
    All-signed :
        (l : List ℕ)
        → All
            (λ (k : ℕ).
              (k + 1 ≡ c.enforcement_state.next_holder_commit_num)
              × (c.enforcement_state.channel_closed ≡ true))
            l
        → All
            (λ (k : ℕ).
              (k + 1 ≡ d.enforcement_state.next_holder_commit_num)
              × (d.enforcement_state.channel_closed ≡ true))
            l
    All-signed [] x = tt
    All-signed (k ∷ l) x = ((omega (arith, x.0), closed), All-signed l x.1)

pub Secure-validate :
    (released signed : List ℕ) (c d : Channel) (num point : ℕ) (secret : Option ℕ)
    → Secure released signed c
    → num < num_end
    → (d.enforcement_state.next_holder_commit_num ≡ num + 1)
      × (d.enforcement_state.channel_closed ≡ c.enforcement_state.channel_closed)
      × ((num + 1 ≡ c.enforcement_state.next_holder_commit_num)
          ⊎ ((num ≡ c.enforcement_state.next_holder_commit_num)
              × (c.enforcement_state.channel_closed ≡ false)))
      × ((x : ℕ) → secret ≡ some x → 1 ≤ num)
    → Secure (released_by num (ok (point, secret)) released) signed d × Secure released signed d
Secure-validate released signed c d num point none s small (is, closed, by, pos) =
    let t : Secure released signed d = record {
      bound = omega (arith, is);
      old = All-old _ _ released (omega (arith, is, by)) s.old;
      last = All-last _ _ _ _ signed (ground (arith, is, closed, by)) s.last;
    } in
    (t, t)
Secure-validate released signed c d num point (some x) s small (is, closed, by, pos) =
    let t : Secure released signed d = record {
      bound = omega (arith, is);
      old = All-old _ _ released (omega (arith, is, by)) s.old;
      last = All-last _ _ _ _ signed (ground (arith, is, closed, by)) s.last;
    } in
    (record { bound = t.bound; old = (omega (arith, is, pos x refl), t.old); last = t.last }, t)

pub settle-Secure :
    {S R : Type 0} (persist : Channel → Bool) (log : Outcome R → List ℕ × List ℕ) (c : Channel)
    (n : S) (o : Outcome (Channel × S × R))
    → Secure (log panic).0 (log panic).1 c
    → ((kind : ValidationErrorKind) → Secure (log (err kind)).0 (log (err kind)).1 c)
    → ((d : Channel) (n' : S) (r : R)
        → o ≡ ok (d, n', r)
        → Secure (log (ok r)).0 (log (ok r)).1 d
          × ((kind : ValidationErrorKind) → Secure (log (err kind)).0 (log (err kind)).1 d))
    → let reply = settle persist c n o in
      Secure (log reply.result).0 (log reply.result).1 reply.channel
settle-Secure persist log c n panic s e f = s
settle-Secure persist log c n (err kind) s e f = e kind
settle-Secure persist log c n (ok (d, n', r)) s e f =
    elim (persist d)
      as (λ b.
        let o = if b then ok r else err ValidationErrorKind.status in
        Secure (log o).0 (log o).1 d) [
          | true ↦ (f d n' r refl).0
          | false ↦ (f d n' r refl).1 ValidationErrorKind.status
        ]

below :
    (next m : ℕ) (released : List ℕ)
    → m + 1 ≡ next
    → All (λ (k : ℕ). k + 2 ≤ next) released
    → All (λ (k : ℕ). k < m) released
below next m [] e h = tt
below next m (k ∷ released) e h = (omega arith, below next m released e h.1)

pub All-below :
    (next : ℕ) (closed : Bool) (released signed : List ℕ)
    → All (λ (k : ℕ). k + 2 ≤ next) released
    → All (λ (k : ℕ). (k + 1 ≡ next) × (closed ≡ true)) signed
    → All (λ (m : ℕ). All (λ (k : ℕ). k < m) released) signed
All-below next closed released [] h x = tt
All-below next closed released (m ∷ signed) h x =
    (below next m released x.0.0 h, All-below next closed released signed h x.1)
