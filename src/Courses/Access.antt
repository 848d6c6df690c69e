-- ===== src/Courses/Access.antt =====
-- apps/course-service/src/course-service.service.ts: who sees and changes an enrollment.
use nestjs_saas.Prelude.{◌≡◌, ◌⊎◌}
use nestjs_saas.Exec.{Error, ok, err, Action}
use nestjs_saas.Prisma.{Prisma}
use nestjs_saas.Courses.State.{Db}
use nestjs_saas.Courses.Enrollments.{EnrollmentView, UpdateEnrollment}

module _ (prisma : Prisma) where
  -- A view of an enrollment of the user who asks, in the tenant that is named
  abbrev pub IsOwn : UpdateEnrollment → EnrollmentView → Type 0
  IsOwn payload v =
      (v.enrollment.tenant_id ≡ payload.tenant_id) × (v.enrollment.user_id ≡ payload.acting_user_id)

  -- An operation is refused and changes nothing, or it shows a view that is the asker's own.
  abbrev pub ShowsOwn : UpdateEnrollment → Action Db EnrollmentView → Db → Type 0
  ShowsOwn payload m db =
      ((x : Error) × (m db ≡ (err x, db)))
      ⊎ ((v : EnrollmentView) × ((m db).0 ≡ ok v) × IsOwn payload v)
