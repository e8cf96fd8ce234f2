-- ===== src/Lib.antt =====
-- Verification of the recharge platform: the sale of diamonds from the payment of an order to the call
-- of the Bigo API, its retries, the coupons of influencers and the metrics of stores.
--
-- The program is a NestJS service over a PostgreSQL database. A payment of the provider Bravive arrives
-- as a webhook or through a manual check (`src/bravive/bravive.service.ts`). An approved payment sends
-- the recharge to the Bigo API (`src/bigo/bigo.service.ts`), whose failures are logged and retried on
-- timers (`src/bigo/bigo-retry.service.ts`). A recharge that went through confirms the coupon of the
-- order (`src/order/order.service.ts`) and recalculates the sales of its store
-- (`src/metrics/metrics.service.ts`); a refund or a chargeback reverts the coupon. A daily cron
-- (`src/metrics/metrics-cron.service.ts`) recalculates the metrics of the last days. Users log in,
-- reset passwords and confirm addresses by codes that are mailed (`src/auth/auth.service.ts`).
--
-- The state is `World` of Database/Actions.antt: the tables of `prisma/schema.prisma` that these
-- services use, the timers, and the map of timers that the retry service holds. A service call is an
-- `Action`, a function from a state to a result or an exception and the new state; `transaction` takes
-- the changes back when its body throws, and `try_catch` keeps them.
--
-- The files, and what they model:
--   Prelude, Prelude/*         shared notation: Boolean tests, lists, signed integers, texts
--   Prisma/Client              the database client, an interface with the laws of its calls, which every
--                              definition takes as a parameter; Prisma/Memory meets the laws with
--                              tables in memory
--   Schema                     the models and enums of prisma/schema.prisma that are used
--   Database/*                 exceptions, actions, the calls of the client with their errors P2002 and
--                              P2025, lemmas on reading after writing (Laws), on what an action
--                              leaves alone (Frame), also when it throws (Atomic), and on what holds
--                              after its checks (Ends) or if it returns (Returns)
--   Bravive/Status             webhook-payment.dto.ts: the statuses and what they mean for a payment
--   Bravive/Handlers           the private handlers of BraviveService, by their names
--   Bravive/Webhook            handleWebhook and checkAndUpdatePaymentStatus
--   Bravive/Approval, Included, Payments, Once, Manual, Refund, Frame
--                              lemmas and theorems on them
--   Bigo/Message               getBigoErrorMessage and extractRescodeFromError
--   Bigo/Request, Bigo/Service makeSignedRequest and the three calls of BigoService with their log
--   Bigo/Queue, Bigo/Retry     BigoRetryService: the queue, and processSpecificRetry
--   Order/Usage                confirmCouponUsage, revertCouponUsage, updateInfluencerMonthlySales
--   Order/Coupon               validateCoupon
--   Order/Create               the transaction of create, which writes the rows of an order
--   Order/Request              the whole of create: its checks, its price, the call of Bravive, and the
--                              errors that it turns into others; validateCouponByPackage;
--                              theorems on its errors (Laws) and its order (Placed, Price)
--   Order/Recent               the search of create for a recent order that is repeated
--   Order/Number               the loop of create that looks for an order number
--   Order/Expiry               checkAndExpireOrders
--   Metrics, Metrics/*         the recalculation of daily, monthly and product sales
--   Cron, Cron/*               MetricsCronService of metrics-cron.service.ts, over those recalculations
--   Auth/Session               what AuthService takes from bcrypt and JWT, and its sessions
--   Auth/Login                 login, adminLogin, refreshAccessToken, changePassword
--   Auth/Reset, Auth/Confirm   forgotPassword, verifyCode, resetPassword; verifyEmail,
--                              resendEmailConfirmation, requestEmailChange, confirmEmailChange
--   Auth/Lookup, Auth/Code     lemmas on finding a user, and on the digits of a code
--   Users                      create, createDirect, sendEmailWithRetry, promoteToAdmin, demoteToUser,
--                              validatePassword and updateRechargeBigoId of UserService
--   Users/Cleanup              UserCleanupService of src/user/user-cleanup.service.ts
--   Users/Laws, Users/Admins   lemmas and theorems on them
--   Coupons, Coupons/Laws      CouponService: create, update, remove and the featured coupons
--   Email                      sendEmail of src/email/email.service.ts
--   Utils/*                    src/utils/date.util.ts, src/utils/email.util.ts, and the Date methods that depend on the time zone
--   Examples/*                 the theorems at concrete inputs
--
-- What comes from outside is a parameter: the database client, the instant, generated sequence ids, the
-- answers of the Bigo API to one request (`Exchange`), the local calendar of the server, and the
-- rounding of amounts (`Money`, to the nearest cent) and their comparison (`PriceTest`). `Surroundings` adds, for
-- the creation of an order, the decryption of a token, the answer of Bravive to a new payment and the
-- text of a number. Amounts are
-- whole cents and instants are milliseconds; percentages are in hundredths, as the columns hold them.
--
-- Hashing (`Bcrypt`) and the signing of tokens (`Jwt`) come with the law that what was hashed compares
-- and what was signed verifies until its time is over; the random part of codes and salts are
-- arguments. Of a call of the mail provider it is given whether the mail was taken, whether it was
-- refused with an error that is returned, as the client of Resend does, or whether the call threw
-- (`SendOutcome`).
--
-- Three functions run on fuel: `digits_from`, which writes a number n in decimal with n + 1 rounds, at
-- least one for each digit; and `number_loop`, with the five attempts that the source allows, which the
-- result on it shows to be enough; and `missing_days`, with a round for each millisecond up to the
-- present, of which each of its rounds takes at least one. The other loops are recursions on lists. The retries of a recharge
-- end because the attempt number grows up to three.
--
-- Not modelled: errors of the database other than P2002 and P2025; interleavings of two requests, so
-- that an action runs to its end before the next one starts; logging; the listings of orders and of
-- users, the general update and removal of users; the paged listings of coupons and the removal of a
-- featured one; the dashboard of a store; the forwarding of webhooks; the administration of products,
-- packages, stores and influencers; the guards of routes; storage; and the controllers.
pub mod Prelude
pub mod Prisma
pub mod Schema
pub mod Coupons
pub mod Cron
pub mod Database
pub mod Auth
pub mod Bigo
pub mod Users
pub mod Utils
pub mod Order
pub mod Metrics
pub mod Bravive
pub mod Email
pub mod Examples
