-- ===== src/Client/Sent.antt =====
-- The order of the exchanges of a load, as a relation between the states before and after it.
use rostam_bench.Base.{
  ◌≡◌, refl, sym, inl, inr, true, false, List, [], ◌∷◌, ◌++◌, All, append_assoc, append-nil,
  Bool-cases,
}
use rostam_bench.Client.Http.{json, octets, empty, Exchange, Log}
use rostam_bench.Client.State.{St}

abbrev pub IsOctets : Exchange → Type 0
IsOctets (q, reply) = elim (q.body) [ octets b ↦ Unit {0} | json j ↦ ⊥ | empty ↦ ⊥ ]

abbrev pub IsJson : Exchange → Type 0
IsJson (q, reply) = elim (q.body) [ json j ↦ Unit {0} | octets b ↦ ⊥ | empty ↦ ⊥ ]

-- The exchanges of a call: first the binary ones, then those in JSON.
pub record Sent (s s' : St) : Type 0 where
  pub binary : Log
  pub in_json : Log
  pub log_grows : s'.log ≡ s.log ++ (binary ++ in_json)
  pub all_binary : All IsOctets binary
  pub all_json : All IsJson in_json
  -- a client that is off the binary wire stays off it
  pub off : s.self.binary ≡ false → (binary ≡ []) × (s'.self.binary ≡ false)
  -- JSON is spoken only by a client that has left the binary wire
  pub still_on : s'.self.binary ≡ true → in_json ≡ []
  -- and a proven client never leaves it
  pub proven :
      s.self.binary_proven ≡ true
      → s.self.binary ≡ true
      → (s'.self.binary ≡ true) × (s'.self.binary_proven ≡ true)

All-append {ℓ κ} :
    {A : Type ℓ} (P : A → Type κ) (xs ys : List A) → All P xs → All P ys → All P (xs ++ ys)
All-append P [] ys hx hy = hy
All-append P (x ∷ xs) ys hx hy = (hx.0, All-append P xs ys hx.1 hy)

pub Sent-nothing : (s : St) → Sent s s
Sent-nothing s = record {
  binary = [];
  in_json = [];
  log_grows = sym (append-nil s.log);
  all_binary = tt;
  all_json = tt;
  off = λ e. (refl, e);
  still_on = λ e. refl;
  proven = λ p b. (b, p);
}

pub Sent-trans : {s t u : St} → Sent s t → Sent t u → Sent s u
Sent-trans {s} {t} {u} a b = elim (Bool-cases t.self.binary) [
  | inl on ↦ record {
    binary = a.binary ++ b.binary;
    in_json = b.in_json;
    log_grows = rw (b.log_grows, a.log_grows, a.still_on on) (simp (append_assoc, append-nil));
    all_binary = All-append IsOctets a.binary b.binary a.all_binary b.all_binary;
    all_json = b.all_json;
    off = λ e. let (x, y) = a.off e in absurd (cc);
    still_on = b.still_on;
    proven = λ p q. let (q', p') = a.proven p q in b.proven p' q';
  }
  | inr gone ↦ record {
    binary = a.binary;
    in_json = a.in_json ++ b.in_json;
    log_grows = rw (b.log_grows, a.log_grows, (b.off gone).0) (simp append_assoc);
    all_binary = a.all_binary;
    all_json = All-append IsJson a.in_json b.in_json a.all_json b.all_json;
    off = λ e. ((a.off e).0, (b.off gone).1);
    still_on = λ e. let (x, y) = b.off gone in absurd (cc);
    proven = λ p q. let (q', p') = a.proven p q in b.proven p' q';
  }
]

-- One exchange, by a client that keeps its flags.
pub Sent-json :
    (s t : St) (x : Exchange)
    → s.self.binary ≡ false
    → t.self ≡ s.self
    → t.log ≡ s.log ++ (x ∷ [])
    → IsJson x
    → Sent s t
Sent-json s t x gone same log is_json = record {
  binary = [];
  in_json = x ∷ [];
  log_grows = log;
  all_binary = tt;
  all_json = (is_json, tt);
  off = λ e. (refl, rw same e);
  still_on = λ e. absurd (cc);
  proven = λ p q. absurd (cc);
}

pub Sent-binary :
    (s t : St) (x : Exchange)
    → s.self.binary ≡ true
    → t.log ≡ s.log ++ (x ∷ [])
    → IsOctets x
    → (s.self.binary_proven ≡ true → (t.self.binary ≡ true) × (t.self.binary_proven ≡ true))
    → Sent s t
Sent-binary s t x on log octets_x keeps = record {
  binary = x ∷ [];
  in_json = [];
  log_grows = log;
  all_binary = (octets_x, tt);
  all_json = tt;
  off = λ e. absurd (cc);
  still_on = λ e. refl;
  proven = λ p q. keeps p;
}
