-- ===== src/Runtime/Addresses.antt =====
-- The job that looks up the addresses of a host
-- (.mooncakes/moonbitlang/async/src/internal/event_loop/thread_pool.c), on Linux. The list of addresses
-- that `getaddrinfo` allocates belongs to the job until it is fetched.
use moonbit.Prelude.{
  ℕ, zero, suc, ◌≡◌, refl, ap, ◌∙◌, Bool, true, false, not, ◌==◌, ◌&&◌, if◌then◌else◌, List, [],
  ◌∷◌,
}
use moonbit.Prelude.Int.{ℤ, pos, negsuc, wrap32}
use moonbit.Runtime.Calls.{Ptr, Os, System, perform, getaddrinfo, eq_ℤ, is_nonzero}
use moonbit.Runtime.Job.{Job, make_job}

-- EAI_SYSTEM is -11.
abbrev pub eai_system : ℤ
eai_system = negsuc 10

pub record GetaddrinfoJob : Type 0 where
  pub job : Job
  pub hostname : Ptr
  pub result : Ptr
  pub result_fetched : ℤ

-- What freeing releases: references, and lists of addresses by `freeaddrinfo`.
pub record Freed : Type 0 where
  pub decref : List Ptr
  pub freeaddrinfo : List Ptr

unfoldable pub free_getaddrinfo_job : GetaddrinfoJob → Freed
unfolding is_nonzero
free_getaddrinfo_job job = record {
  decref = job.hostname ∷ [];
  freeaddrinfo =
      if not (job.result == 0) && not (is_nonzero job.result_fetched) then job.result ∷ [] else [];
}

-- The result is written only by a call that succeeds.
unfoldable pub getaddrinfo_job_worker :
    {K : Type 0} → Os K → GetaddrinfoJob → System K → GetaddrinfoJob × System K
unfolding perform eq_ℤ is_nonzero
getaddrinfo_job_worker os self s =
    let (r, s') = perform os (getaddrinfo self.hostname) s in
    let ret = wrap32 r.ret in
    (
      record self {
        job = record { ret = ret; err = if eq_ℤ ret eai_system then r.errno else self.job.err };
        result = if is_nonzero r.ret then self.result else r.pointer;
      },
      s',
    )

unfoldable pub make_getaddrinfo_job : Ptr → GetaddrinfoJob
unfolding make_job
make_getaddrinfo_job hostname = record {
  job = make_job;
  hostname = hostname;
  result = 0;
  result_fetched = pos 0;
}

unfoldable pub get_getaddrinfo_result : GetaddrinfoJob → Ptr × GetaddrinfoJob
get_getaddrinfo_result job = (job.result, record job { result_fetched = pos 1 })

-- The job after its result was fetched a number of times.
unfoldable pub fetch_times : ℕ → GetaddrinfoJob → GetaddrinfoJob
unfolding get_getaddrinfo_result
fetch_times zero job = job
fetch_times (suc n) job = (get_getaddrinfo_result (fetch_times n job)).1

-- The list that a reply to `getaddrinfo` leaves for somebody to free.
unfoldable pub allocated : ℤ → Ptr → List Ptr
unfolding is_nonzero
allocated ret pointer = if is_nonzero ret then [] else if pointer == 0 then [] else pointer ∷ []

-- What is left to free after so many fetches.
unfoldable pub unless_fetched : ℕ → List Ptr → List Ptr
unless_fetched zero l = l
unless_fetched (suc n) l = []

not_fetched : (c : Bool) (l : List Ptr) → (if not c && true then l else []) ≡ (if c then [] else l)
not_fetched true l = refl
not_fetched false l = refl

was_fetched : (c : Bool) (l : List Ptr) → (if not c && false then l else []) ≡ []
was_fetched true l = refl
was_fetched false l = refl

run_unfetched :
    (b : Bool) (p : Ptr)
    → (if not ((if b then 0 else p) == 0) && true then (if b then 0 else p) ∷ [] else [])
      ≡ (if b then [] else if p == 0 then [] else p ∷ [])
run_unfetched true p = refl
run_unfetched false p = not_fetched (p == 0) (p ∷ [])

fetch_times_hostname : (n : ℕ) (j : GetaddrinfoJob) → (fetch_times n j).hostname ≡ j.hostname
unfolding fetch_times get_getaddrinfo_result
fetch_times_hostname zero j = refl
fetch_times_hostname (suc n) j = fetch_times_hostname n j

-- A lookup that is run and whose result is then fetched any number of times releases the name of the
-- host once, and frees the list of addresses if there is one and it was never fetched; a list
-- that was fetched, be it once or more, is left to those who fetched it.
free_getaddrinfo_job_lem :
    {K : Type 0} (os : Os K) (hostname : Ptr) (k : K) (n : ℕ)
    → let s : System K = record { kernel = k; calls = [] } in
      let ran = (getaddrinfo_job_worker os (make_getaddrinfo_job hostname) s).0 in
      let r = (os (getaddrinfo hostname) k).0 in
      free_getaddrinfo_job (fetch_times n ran) ≡ record {
        decref = hostname ∷ [];
        freeaddrinfo = unless_fetched n (allocated r.ret r.pointer);
      }
unfolding unless_fetched free_getaddrinfo_job fetch_times getaddrinfo_job_worker
    make_getaddrinfo_job perform allocated is_nonzero get_getaddrinfo_result
free_getaddrinfo_job_lem os hostname k zero =
    ap (λ l. record { decref = hostname ∷ []; freeaddrinfo = l })
      (run_unfetched (is_nonzero (os (getaddrinfo hostname) k).0.ret)
        (os (getaddrinfo hostname) k).0.pointer)
free_getaddrinfo_job_lem {K = K} os hostname k (suc n) =
    let s : System K = record { kernel = k; calls = [] } in
    let ran = (getaddrinfo_job_worker os (make_getaddrinfo_job hostname) s).0 in
    let job = fetch_times n ran in
    let freed : List Ptr → List Ptr → Freed = λ d l. record { decref = d; freeaddrinfo = l } in
    ap (λ l. freed (job.hostname ∷ []) l) (was_fetched (job.result == 0) (job.result ∷ []))
    ∙ ap (λ h. freed (h ∷ []) []) (fetch_times_hostname n ran)
